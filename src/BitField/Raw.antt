-- ===== src/BitField/Raw.antt =====
-- The bits of a list of bytes, and what writes to it do to them.

use goed2k.Common.{
  ℕ, zero, suc, ◌/◌, ◌%◌, ◌≤◌, ◌<◌, ◌≡◌, refl, ap, List, [], ◌∷◌, Bool, ◌&&◌, ltb, leb, ◌==◌,
  if◌then◌else◌, length, get_or, set, replicate, All, arith,
}
use goed2k.BitField.Bytes.{byte_bit}
use goed2k.BitField.{copy, fill_from}

abbrev pub raw_bit : List ℕ → ℕ → Bool
raw_bit bytes i = byte_bit (get_or bytes (i / 8) 0) (i % 8)

abbrev pub IsByte : ℕ → Type 0
IsByte x = x < 256

pub get_or-byte : (xs : List ℕ) (i : ℕ) → All IsByte xs → get_or xs i 0 < 256
get_or-byte [] i h = omega arith
get_or-byte (x ∷ xs) zero h = h.0
get_or-byte (x ∷ xs) (suc i) h = get_or-byte xs i h.1

pub get_or-past : (xs : List ℕ) (i : ℕ) → length xs ≤ i → get_or xs i 0 ≡ 0
get_or-past [] i h = refl
get_or-past (x ∷ xs) zero h = absurd (omega arith)
get_or-past (x ∷ xs) (suc i) h = get_or-past xs i (omega arith)

pub get_or-set :
    (xs : List ℕ) (k j v : ℕ)
    → get_or (set xs k v) j 0 ≡ (if k == j && ltb k (length xs) then v else get_or xs j 0)
get_or-set [] k j v = ground arith
get_or-set (x ∷ xs) zero zero v = ground arith
get_or-set (x ∷ xs) zero (suc j) v = ground arith
get_or-set (x ∷ xs) (suc k) zero v = ground arith
get_or-set (x ∷ xs) (suc k) (suc j) v = ground (arith, get_or-set xs k j v)

pub set-IsByte : (xs : List ℕ) (k v : ℕ) → All IsByte xs → v < 256 → All IsByte (set xs k v)
set-IsByte [] k v h b = tt
set-IsByte (x ∷ xs) zero v h b = (b, h.1)
set-IsByte (x ∷ xs) (suc k) v h b = (h.0, set-IsByte xs k v h.1 b)

pub get_or-replicate : (n i : ℕ) → get_or {A = ℕ} (replicate n 0) i 0 ≡ 0
get_or-replicate zero i = refl
get_or-replicate (suc n) zero = refl
get_or-replicate (suc n) (suc i) = get_or-replicate n i

pub replicate-IsByte : (n : ℕ) → All IsByte (replicate n 0)
replicate-IsByte zero = tt
replicate-IsByte (suc n) = (omega arith, replicate-IsByte n)

-- `copy` over a list of zeros keeps the target's length and takes as much of the source as fits.
pub length-copy : (dst src : List ℕ) → length (copy dst src) ≡ length dst
unfolding copy
length-copy [] [] = refl
length-copy [] (y ∷ ys) = refl
length-copy (x ∷ xs) [] = refl
length-copy (x ∷ xs) (y ∷ ys) = ap suc (length-copy xs ys)

pub get_or-copy :
    (dst src : List ℕ) (i : ℕ)
    → get_or (copy dst src) i 0 ≡ (
        if ltb i (length dst)
        then (if ltb i (length src) then get_or src i 0 else get_or dst i 0)
        else 0)
unfolding copy
get_or-copy [] [] i = ground arith
get_or-copy [] (y ∷ ys) i = ground arith
get_or-copy (x ∷ xs) [] i = ground (arith, get_or-past (x ∷ xs) i)
get_or-copy (x ∷ xs) (y ∷ ys) zero = ground arith
get_or-copy (x ∷ xs) (y ∷ ys) (suc i) = ground (arith, get_or-copy xs ys i)

pub copy-IsByte : (dst src : List ℕ) → All IsByte dst → All IsByte src → All IsByte (copy dst src)
unfolding copy
copy-IsByte [] [] h k = tt
copy-IsByte [] (y ∷ ys) h k = tt
copy-IsByte (x ∷ xs) [] h k = h
copy-IsByte (x ∷ xs) (y ∷ ys) h k = (k.0, copy-IsByte xs ys h.1 k.1)

pub get_or-fill :
    (n i : ℕ) (xs : List ℕ)
    → get_or (fill_from n xs) i 0 ≡ (if leb n i && ltb i (length xs) then 0xff else get_or xs i 0)
unfolding fill_from
get_or-fill n i [] = ground arith
get_or-fill zero zero (x ∷ xs) = ground arith
get_or-fill zero (suc i) (x ∷ xs) = ground (arith, get_or-fill zero i xs)
get_or-fill (suc n) zero (x ∷ xs) = ground arith
get_or-fill (suc n) (suc i) (x ∷ xs) = ground (arith, get_or-fill n i xs)

pub length-fill : (n : ℕ) (xs : List ℕ) → length (fill_from n xs) ≡ length xs
unfolding fill_from
length-fill n [] = refl
length-fill zero (x ∷ xs) = ap suc (length-fill zero xs)
length-fill (suc n) (x ∷ xs) = ap suc (length-fill n xs)

pub fill-IsByte : (n : ℕ) (xs : List ℕ) → All IsByte xs → All IsByte (fill_from n xs)
unfolding fill_from
fill-IsByte n [] h = tt
fill-IsByte zero (x ∷ xs) h = (omega arith, fill-IsByte zero xs h.1)
fill-IsByte (suc n) (x ∷ xs) h = (h.0, fill-IsByte n xs h.1)

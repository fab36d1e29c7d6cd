-- ===== src/Wire/RoundTrip.antt =====
-- What is read back of the basic values, with whatever follows them.
use goed2k.Common.{
  ℕ, zero, suc, ◌-◌, ◌*◌, ◌/◌, ◌^◌, ◌<◌, ◌≤◌, ◌≡◌, refl, sym, ap, ◌∙◌, List, [], ◌∷◌, ◌++◌,
  append-nil, length, length-append, take, drop, take-append, drop-append, replicate, arith, ==_iff,
}
use native.Mathlib.Nat.{pow-suc}
use goed2k.Wire.{ok}
use goed2k.Wire.Basic.{
  read_le_rest, read_le, write_le, read_bytes, read_hash, Endpoint, read_endpoint, write_endpoint,
}

pub length-write_le : (k v : ℕ) → length (write_le k v) ≡ k
unfolding write_le
length-write_le zero v = refl
length-write_le (suc k) v = ap suc (length-write_le k (v / 256))

pow_step : (k : ℕ) → 256 ^ suc k ≡ 256 * 256 ^ k
pow_step k = omega (arith, pow-suc 256 k)

read_le_rest-write :
    (k v : ℕ) (rest : List ℕ) → v < 256 ^ k → read_le_rest k (write_le k v ++ rest) ≡ ok (v, rest)
unfolding read_le_rest write_le
read_le_rest-write zero v rest h = ground arith
read_le_rest-write (suc k) v rest h =
    rw (read_le_rest-write k (v / 256) rest (omega (arith, pow_step k))) (ground arith)

-- A number below the width is read back as it was written.
pub read_le-write :
    (k v : ℕ) (rest : List ℕ)
    → v < 256 ^ suc k
    → read_le (suc k) (write_le (suc k) v ++ rest) ≡ ok (v, rest)
unfolding read_le write_le
read_le-write k v rest h = read_le_rest-write (suc k) v rest h

-- Bytes are read back as they were written.
pub read_bytes-write : (xs rest : List ℕ) → read_bytes (length xs) (xs ++ rest) ≡ ok (xs, rest)
unfolding read_bytes
read_bytes-write [] rest = refl
read_bytes-write (x ∷ xs) rest =
    let none_left : suc (length xs) - suc (length (xs ++ rest)) ≡ 0 =
      omega (arith, length-append xs rest) in
    rw (none_left, take-append, drop-append, append-nil)

take_all : (n : ℕ) (xs : List ℕ) → length xs ≤ n → take n xs ≡ xs
take_all zero [] h = refl
take_all zero (x ∷ xs) h = elim h [ ]
take_all (suc n) [] h = refl
take_all (suc n) (x ∷ xs) h = ap (◌∷◌ x) (take_all n xs (omega arith))

drop_all : (n : ℕ) (xs : List ℕ) → length xs ≤ n → drop n xs ≡ []
drop_all zero [] h = refl
drop_all zero (x ∷ xs) h = elim h [ ]
drop_all (suc n) [] h = refl
drop_all (suc n) (x ∷ xs) h = drop_all n xs (omega arith)

-- From an input that is not empty and shorter than asked for, readBytes gives no error: the
-- value is the input with zeros up to the asked size, and nothing is left.
pub read_bytes_short :
    (n : ℕ) (src : List ℕ)
    → 0 < length src
    → length src < n
    → read_bytes n src ≡ ok (src ++ replicate (n - length src) 0, [])
unfolding read_bytes
read_bytes_short n [] h k = elim h [ ]
read_bytes_short zero (x ∷ xs) h k = elim k [ ]
read_bytes_short (suc n) (x ∷ xs) h k =
    rw (take_all n xs (omega arith), drop_all n xs (omega arith))

-- A hash of 16 bytes is read back as it was written.
pub read_hash-write : (h rest : List ℕ) → length h ≡ 16 → read_hash (h ++ rest) ≡ ok (h, rest)
unfolding read_hash
read_hash-write h rest e =
    let whole : read_bytes 16 (h ++ rest) ≡ ok (h, rest) =
      ap (λ n. read_bytes n (h ++ rest)) (sym e) ∙ read_bytes-write h rest in
    rw (whole, (==_iff (length h) 16).1 e)

-- An endpoint whose address fits 32 bits and whose port is below 65536 is read back by
-- ReadEndpoint as WriteEndpoint wrote it, and what follows is left.
pub read_endpoint-write :
    (e : Endpoint) (rest : List ℕ)
    → e.ip < 2 ^ 32
    → e.port < 65536
    → read_endpoint (write_endpoint e ++ rest) ≡ ok (e, rest)
unfolding read_endpoint write_endpoint
read_endpoint-write e rest h k = ground arith

-- The widths that packets use.
pub read_uint16-write :
    (v : ℕ) (rest : List ℕ) → v < 65536 → read_le 2 (write_le 2 v ++ rest) ≡ ok (v, rest)
read_uint16-write v rest h = read_le-write 1 v rest h

pub read_uint32-write :
    (v : ℕ) (rest : List ℕ) → v < 2 ^ 32 → read_le 4 (write_le 4 v ++ rest) ≡ ok (v, rest)
read_uint32-write v rest h = read_le-write 3 v rest h

pub read_uint64-write :
    (v : ℕ) (rest : List ℕ) → v < 2 ^ 64 → read_le 8 (write_le 8 v ++ rest) ≡ ok (v, rest)
read_uint64-write v rest h = read_le-write 7 v rest h

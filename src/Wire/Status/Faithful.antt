-- ===== src/Wire/Status/Faithful.antt =====
-- A packed bit field is read back as it was written.
use Prim.Native.Nat.{bit_and}
use goed2k.Common.{
  all_below, all_below_lem, ℕ, zero, suc, ◌+◌, ◌-◌, ◌*◌, ◌/◌, ◌%◌, ◌^◌, ◌<◌, ◌≤◌, ◌≡◌, refl, sym,
  ap, ◌∙◌, List, [], ◌∷◌, ◌++◌, append_assoc, length, length-append, set, get_or, Bool, true, false,
  ◌&&◌, ◌||◌, not, ltb, ◌==◌, All, Bool-cases, inl, inr, arith,
}
use goed2k.BitField.{
  BitField, bits_to_bytes, clear_trailing_bits, copy, resize, new_bit_field, assign,
}
use goed2k.BitField.Bytes.{byte_bit}
use goed2k.BitField.Raw.{IsByte}
use goed2k.BitField.Bits.{IsPacked, get_bit-new, get_bit-resize}
use goed2k.Wire.{IsFaithful}
use goed2k.Wire.Basic.{write_le}
use goed2k.Wire.RoundTrip.{read_uint16-write, read_hash-write, read_bytes-write, length-write_le}
use goed2k.Wire.Status.{
  get_bit_field, put_bit_field, bit_field_format, FileStatusAnswer, get_file_status_answer,
  put_file_status_answer, file_status_format,
}

-- A byte without bits from the `k`-th on is what its mask leaves of it.
abbrev ends_at : ℕ → ℕ → ℕ → Bool
ends_at x k j = ltb j k || not (byte_bit x j)

mask_table :
    all_below 256 (λ x. all_below 8 (λ k.
      k == 0 || (not (all_below 8 (ends_at x k)) || bit_and x (0xff * 2 ^ (8 - k) % 256) == x)))
    ≡ true
unfolding all_below
mask_table = refl

all_below_of : (n : ℕ) (p : ℕ → Bool) → ((j : ℕ) → j < n → p j ≡ true) → all_below n p ≡ true
unfolding all_below
all_below_of zero p h = refl
all_below_of (suc n) p h =
    ground (arith, h n (omega arith), all_below_of n p (λ j l. h j (omega (arith, l))))

mask_lem :
    (x k : ℕ)
    → x < 256
    → 0 < k
    → k < 8
    → ((j : ℕ) → j < 8 → ends_at x k j ≡ true)
    → bit_and x (0xff * 2 ^ (8 - k) % 256) ≡ x
mask_lem x k hx pos hk h =
    let t = all_below_lem 8 _ k (all_below_lem 256 _ x mask_table hx) hk in
    ground (arith, t, pos, all_below_of 8 (ends_at x k) h)

set-get_or : (xs : List ℕ) (i : ℕ) → set xs i (get_or xs i 0) ≡ xs
set-get_or [] i = refl
set-get_or (x ∷ xs) zero = refl
set-get_or (x ∷ xs) (suc i) = ap (◌∷◌ x) (set-get_or xs i)

get_or-IsByte : (xs : List ℕ) (i : ℕ) → All IsByte xs → get_or xs i 0 < 256
get_or-IsByte [] i h = omega arith
get_or-IsByte (x ∷ xs) zero h = h.0
get_or-IsByte (x ∷ xs) (suc i) h = get_or-IsByte xs i h.1

-- The last byte of a packed field ends where the field does.
last_ends :
    (b : BitField) (j : ℕ)
    → IsPacked b
    → 0 < b.size % 8
    → j < 8
    → ends_at (get_or b.bytes (bits_to_bytes b.size - 1) 0) (b.size % 8) j ≡ true
last_ends b j p h l =
    let last : ℕ = bits_to_bytes b.size - 1 in
    let byte : (8 * last + j) / 8 ≡ last = omega (arith, l) in
    let bit : (8 * last + j) % 8 ≡ j = omega (arith, l) in
    elim (Bool-cases (ltb j (b.size % 8))) [
      | inl e ↦ rw e refl
      | inr e ↦
          let past : b.size ≤ 8 * last + j = ground (arith, e, h) in
          let clear : byte_bit (get_or b.bytes last 0) j ≡ false =
            simp (byte, bit) at (p.padded (8 * last + j) past) in
          rw (e, clear) refl
    ]

clear_trailing_bits-IsPacked : (b : BitField) → IsPacked b → clear_trailing_bits b ≡ b
unfolding clear_trailing_bits
clear_trailing_bits-IsPacked b p =
    elim (Bool-cases (not (b.size % 8 == 0) && ltb 0 (length b.bytes))) [
      | inr e ↦ rw e refl
      | inl e ↦
          let some_bits : 0 < b.size % 8 = ground (arith, e) in
          let last : ℕ = bits_to_bytes b.size - 1 in
          let kept =
            mask_lem (get_or b.bytes last 0) (b.size % 8) (get_or-IsByte b.bytes last p.are_bytes)
              some_bits (omega arith) (λ j l. last_ends b j p some_bits l) in
          rw (e, kept, set-get_or b.bytes last) refl
    ]

copy-same_length : (dst src : List ℕ) → length dst ≡ length src → copy dst src ≡ src
unfolding copy
copy-same_length [] [] h = refl
copy-same_length [] (y ∷ ys) h = absurd (omega (arith, h))
copy-same_length (x ∷ xs) [] h = absurd (omega (arith, h))
copy-same_length (x ∷ xs) (y ∷ ys) h = ap (◌∷◌ y) (copy-same_length xs ys (omega (arith, h)))

abbrev empty : BitField
empty = record { bytes = []; size = 0 }

empty-IsPacked : IsPacked empty
unfolding new_bit_field resize clear_trailing_bits copy
empty-IsPacked = (get_bit-new 0 0).0

assign-IsPacked : (b : BitField) → IsPacked b → assign empty b.bytes b.size ≡ b
unfolding assign
assign-IsPacked b p =
    let (q, bit, z) = get_bit-resize empty b.size empty-IsPacked in
    let same : length (resize empty b.size).bytes ≡ length b.bytes =
      q.sized ∙ ap (λ (n : ℕ). bits_to_bytes n) z ∙ sym p.sized in
    rw (copy-same_length (resize empty b.size).bytes b.bytes same, z)
      (clear_trailing_bits-IsPacked b p)

pub record IsStatus (b : BitField) : Type 0 where
  pub packed : IsPacked b
  pub size : b.size < 65536

pub bit_field_format-IsFaithful : IsFaithful bit_field_format IsStatus
unfolding get_bit_field put_bit_field
bit_field_format-IsFaithful = record {
  round_trip = λ b rest v.
      let small : b.size % 65536 ≡ b.size = omega (arith, v.size) in
      rw
        (
          small,
          append_assoc (write_le 2 b.size) b.bytes rest,
          read_uint16-write b.size (b.bytes ++ rest) v.size,
          sym v.packed.sized,
          read_bytes-write b.bytes rest,
          assign-IsPacked b v.packed,
        )
        refl;
  sized = λ b v. omega (
    arith,
    length-append (write_le 2 (b.size % 65536)) b.bytes,
    length-write_le 2 (b.size % 65536),
  );
}

pub record IsFileStatus (f : FileStatusAnswer) : Type 0 where
  pub hash : length f.hash ≡ 16
  pub bit_field : IsStatus f.bit_field

-- A packed bit field of fewer than 65536 bits, and a FileStatusAnswer with such a field and a
-- hash of 16 bytes, are read back by Get as Put wrote them, what follows is left, and BytesCount
-- is the number of bytes that Put writes.
pub bit_fields-IsFaithful :
    IsFaithful bit_field_format IsStatus × IsFaithful file_status_format IsFileStatus
unfolding get_file_status_answer put_file_status_answer
bit_fields-IsFaithful = (
  bit_field_format-IsFaithful,
  record {
    round_trip = λ f rest v. ground (
      arith,
      append_assoc f.hash (put_bit_field f.bit_field) rest,
      read_hash-write f.hash (put_bit_field f.bit_field ++ rest) v.hash,
      bit_field_format-IsFaithful.round_trip f.bit_field rest v.bit_field,
    );
    sized = λ f v. omega (
      arith,
      v.hash,
      length-append f.hash (put_bit_field f.bit_field),
      bit_field_format-IsFaithful.sized f.bit_field v.bit_field,
    );
  },
)

-- ===== src/BitField/Bits.antt =====
-- What each operation does to the bits that `get_bit` reads.
use Prim.Native.Nat.{bit_and, bit_or}
use goed2k.Common.{
  ℕ, zero, suc, ◌-◌, ◌*◌, ◌/◌, ◌%◌, ◌^◌, ◌≤◌, ◌<◌, ◌≡◌, refl, ap, ◌∙◌, List, [], ◌∷◌, map, true,
  false, ◌&&◌, ◌||◌, not, ltb, leb, ◌==◌, length, length-set, length-replicate, get_or, set, dec_lt,
  replicate, All, arith, some,
}
use goed2k.BitField.Bytes.{bit-set, bit-clear, bit-keep, bit-top, bit-full}
use goed2k.BitField.Raw.{
  raw_bit, IsByte, get_or-byte, get_or-set, set-IsByte, get_or-replicate, replicate-IsByte,
  length-copy, get_or-copy, copy-IsByte, get_or-fill, length-fill, fill-IsByte, get_or-past,
}
use goed2k.BitField.{
  BitField, bits_to_bytes, bit_mask, clear_trailing_bits, copy, resize, new_bit_field, resize_with,
  set_bit, get_bit, clear_bit, set_all, assign, fill_from, top_up,
}

-- The bytes are bytes, exactly as many as the size needs.
pub record IsSized (b : BitField) : Type 0 where
  pub sized : length b.bytes ≡ bits_to_bytes b.size
  pub are_bytes : All IsByte b.bytes

-- Besides, no bit behind the end is set.
pub record IsPacked (b : BitField) : Type 0 where
  pub sized : length b.bytes ≡ bits_to_bytes b.size
  pub are_bytes : All IsByte b.bytes
  pub padded : (i : ℕ) → b.size ≤ i → raw_bit b.bytes i ≡ false

-- A bit that is in range is read from a byte that is there.
pub byte-in-range : (b : BitField) (i : ℕ) → IsSized b → i < b.size → i / 8 < length b.bytes
byte-in-range b i s h = omega (arith, s.sized)

pub get_bit-raw : (b : BitField) (i : ℕ) → IsPacked b → get_bit b i ≡ raw_bit b.bytes i
unfolding get_bit
get_bit-raw b i p = ground (arith, p.padded i)

-- On a bit field whose bytes agree with its size, SetBit of an index in range does not panic,
-- sets that bit, keeps every other, and keeps the bytes in agreement.
pub get_bit-set_bit :
    (b : BitField) (i : ℕ)
    → IsSized b
    → i < b.size
    → (c : BitField) × (set_bit b i ≡ some c)
      × ((j : ℕ) → get_bit c j ≡ (i == j || get_bit b j))
      × IsSized c
unfolding set_bit get_bit
get_bit-set_bit b i s h =
    let v : ℕ = bit_or (get_or b.bytes (i / 8) 0) (bit_mask i) in
    let x = get_or-byte b.bytes (i / 8) s.are_bytes in
    (
      record b { bytes = set b.bytes (i / 8) v },
      ground (arith, s.sized),
      (λ j. ground (
        arith,
        s.sized,
        get_or-set b.bytes (i / 8) (j / 8) v,
        bit-set (get_or b.bytes (i / 8) 0) (i % 8) (j % 8) x,
      )),
      record {
        sized = length-set b.bytes (i / 8) v ∙ s.sized;
        are_bytes =
            set-IsByte b.bytes (i / 8) v s.are_bytes
              (bit-set (get_or b.bytes (i / 8) 0) (i % 8) 0 x (omega arith) (omega arith)).1;
      },
    )

-- On a bit field whose bytes agree with its size, ClearBit of an index in range does not panic,
-- clears that bit, keeps every other, and keeps the bytes in agreement.
pub get_bit-clear_bit :
    (b : BitField) (i : ℕ)
    → IsSized b
    → i < b.size
    → (c : BitField) × (clear_bit b i ≡ some c)
      × ((j : ℕ) → get_bit c j ≡ (not (i == j) && get_bit b j))
      × IsSized c
unfolding clear_bit get_bit
get_bit-clear_bit b i s h =
    let v : ℕ = bit_and (get_or b.bytes (i / 8) 0) (255 - bit_mask i) in
    let x = get_or-byte b.bytes (i / 8) s.are_bytes in
    (
      record b { bytes = set b.bytes (i / 8) v },
      ground (arith, s.sized),
      (λ j. ground (
        arith,
        s.sized,
        get_or-set b.bytes (i / 8) (j / 8) v,
        bit-clear (get_or b.bytes (i / 8) 0) (i % 8) (j % 8) x,
      )),
      record {
        sized = length-set b.bytes (i / 8) v ∙ s.sized;
        are_bytes =
            set-IsByte b.bytes (i / 8) v s.are_bytes
              (bit-clear (get_or b.bytes (i / 8) 0) (i % 8) 0 x (omega arith) (omega arith)).1;
      },
    )

-- Clearing the trailing bits keeps the bits in range, and leaves no other.
raw_bit-clear_trailing :
    (b : BitField) (i : ℕ)
    → IsSized b
    → raw_bit (clear_trailing_bits b).bytes i ≡ (ltb i b.size && raw_bit b.bytes i)
unfolding clear_trailing_bits
raw_bit-clear_trailing b i s =
    let k : ℕ = bits_to_bytes b.size - 1 in
    let x : ℕ = get_or b.bytes k 0 in
    let v : ℕ = bit_and x (0xff * 2 ^ (8 - b.size % 8) % 256) in
    ground (
      arith,
      s.sized,
      get_or-set b.bytes k (i / 8) v,
      get_or-past b.bytes (i / 8),
      bit-full (i % 8),
      bit-keep x (b.size % 8) (i % 8) (get_or-byte b.bytes k s.are_bytes),
    )

clear_trailing-IsSized :
    (b : BitField)
    → IsSized b
    → IsSized (clear_trailing_bits b) × ((clear_trailing_bits b).size ≡ b.size)
unfolding clear_trailing_bits
clear_trailing-IsSized b s =
    let k : ℕ = bits_to_bytes b.size - 1 in
    let x : ℕ = get_or b.bytes k 0 in
    let v : ℕ = bit_and x (0xff * 2 ^ (8 - b.size % 8) % 256) in
    ground (
      arith,
      s.sized,
      s.are_bytes,
      length-set b.bytes k v,
      set-IsByte b.bytes k v s.are_bytes,
      bit-keep x (b.size % 8) 0 (get_or-byte b.bytes k s.are_bytes),
    )

-- The bits of a bit field of which only the size and the bytes are known to agree.
clear_trailing-Bits :
    (b : BitField)
    → IsSized b
    → IsPacked (clear_trailing_bits b)
      × ((i : ℕ) → get_bit (clear_trailing_bits b) i ≡ (ltb i b.size && raw_bit b.bytes i))
clear_trailing-Bits b s =
    let (t, e) = clear_trailing-IsSized b s in
    let p : IsPacked (clear_trailing_bits b) = record {
      sized = t.sized;
      are_bytes = t.are_bytes;
      padded = λ i h. ground (arith, raw_bit-clear_trailing b i s, e);
    } in
    (p, λ i. get_bit-raw _ i p ∙ raw_bit-clear_trailing b i s)

-- Resize of a packed bit field gives a packed one of the new size, whose bits are those of the
-- old field that still fit, and not set where the old field had none.
pub get_bit-resize :
    (b : BitField) (n : ℕ)
    → IsPacked b
    → IsPacked (resize b n)
      × ((i : ℕ) → get_bit (resize b n) i ≡ (ltb i n && get_bit b i))
      × ((resize b n).size ≡ n)
unfolding resize
get_bit-resize b n p =
    let zeros : List ℕ = replicate (bits_to_bytes n) 0 in
    let r : BitField = record { bytes = copy zeros b.bytes; size = n } in
    let s : IsSized r = record {
      sized = length-copy zeros b.bytes ∙ length-replicate (bits_to_bytes n) 0;
      are_bytes = copy-IsByte zeros b.bytes (replicate-IsByte (bits_to_bytes n)) p.are_bytes;
    } in
    let (q, bit) = clear_trailing-Bits r s in
    (
      q,
      (λ i.
          bit i
          ∙ ground (
            arith,
            get_bit-raw b i p,
            get_or-copy zeros b.bytes (i / 8),
            length-replicate {A = ℕ} (bits_to_bytes n) 0,
            get_or-replicate (bits_to_bytes n) (i / 8),
            get_or-past b.bytes (i / 8),
            bit-full (i % 8),
          )),
      (clear_trailing-IsSized r s).1,
    )

-- A new bit field has its size, and no bit set.
pub get_bit-new : (n i : ℕ) → IsPacked (new_bit_field n) × (get_bit (new_bit_field n) i ≡ false)
unfolding new_bit_field
get_bit-new n i =
    let e : BitField = record { bytes = []; size = 0 } in
    let (p, bit, _) = get_bit-resize e n (record {
      sized = omega arith;
      are_bytes = tt;
      padded = λ i h. (bit-full (i % 8) (omega arith)).1;
    }) in
    (p, bit i ∙ unfold get_bit in ground arith)

abbrev filled : List ℕ → List ℕ
filled = map (λ _. 0xff)

map-full : (xs : List ℕ) → All IsByte (filled xs) × (length (filled xs) ≡ length xs)
map-full [] = (tt, refl)
map-full (x ∷ xs) = ((omega arith, (map-full xs).0), ap suc (map-full xs).1)

get_or-full : (xs : List ℕ) (i : ℕ) → i < length xs → get_or {A = ℕ} (filled xs) i 0 ≡ 0xff
get_or-full [] i h = elim h [ ]
get_or-full (x ∷ xs) zero h = refl
get_or-full (x ∷ xs) (suc i) h = get_or-full xs i (omega arith)

-- SetAll on a bit field whose bytes agree with its size gives a packed one, in which a bit is
-- set exactly if it is in range.
pub get_bit-set_all :
    (b : BitField) (i : ℕ)
    → IsSized b
    → IsPacked (set_all b) × (get_bit (set_all b) i ≡ ltb i b.size)
unfolding set_all
get_bit-set_all b i s =
    let f : BitField = record b { bytes = filled b.bytes } in
    let (p, bit) =
      clear_trailing-Bits f
        (record { sized = (map-full b.bytes).1 ∙ s.sized; are_bytes = (map-full b.bytes).0 }) in
    (p, bit i ∙ ground (arith, s.sized, get_or-full b.bytes (i / 8), bit-full (i % 8)))

top_up-IsByte :
    (old : ℕ) (bytes : List ℕ)
    → All IsByte bytes
    → All IsByte (top_up old bytes) × (length (top_up old bytes) ≡ length bytes)
unfolding top_up
top_up-IsByte old bytes h =
    let k : ℕ = bits_to_bytes old - 1 in
    let v : ℕ = bit_or (get_or bytes k 0) (0xff / 2 ^ (old % 8)) in
    ground (
      arith,
      h,
      length-set bytes k v,
      set-IsByte bytes k v h,
      bit-top (get_or bytes k 0) (old % 8) 0 (get_or-byte bytes k h),
    )

-- The bits that are added in the last byte of the old size.
raw_bit-top_up :
    (old i : ℕ) (bytes : List ℕ)
    → All IsByte bytes
    → bits_to_bytes old ≤ length bytes
    → raw_bit (top_up old bytes) i
      ≡ ((leb old i && ltb (i / 8) (bits_to_bytes old)) || raw_bit bytes i)
unfolding top_up
raw_bit-top_up old i bytes h l =
    let k : ℕ = bits_to_bytes old - 1 in
    let v : ℕ = bit_or (get_or bytes k 0) (0xff / 2 ^ (old % 8)) in
    ground (
      arith,
      get_or-set bytes k (i / 8) v,
      bit-top (get_or bytes k 0) (old % 8) (i % 8) (get_or-byte bytes k h),
    )

ltb-leb : (a b : ℕ) → a < b → leb b a ≡ false
ltb-leb a b h = ground arith

-- ResizeWith true on a packed bit field gives a packed one, whose bits below the new size are
-- those of the old field, and set where the old field had none.
pub get_bit-resize_with :
    (b : BitField) (n i : ℕ)
    → IsPacked b
    → IsPacked (resize_with b n true)
      × (get_bit (resize_with b n true) i ≡ (ltb i n && (leb b.size i || get_bit b i)))
unfolding resize_with
get_bit-resize_with b n i p =
    let (q, bit, z) = get_bit-resize b n p in
    let r : BitField = resize b n in
    elim (dec_lt b.size n) [
      | no h ↦ ground (arith, q, bit i)
      | yes h ↦
          let (tb, tl) = top_up-IsByte b.size r.bytes q.are_bytes in
          let t : List ℕ = top_up b.size r.bytes in
          let old : ℕ = bits_to_bytes b.size in
          let s : IsSized (record r { bytes = fill_from old t }) = record {
            sized = length-fill old t ∙ tl ∙ q.sized;
            are_bytes = fill-IsByte old t tb;
          } in
          let (u, bit') = clear_trailing-Bits (record r { bytes = fill_from old t }) s in
          rw (ltb-leb b.size n h) (
            u,
            bit' i
                ∙ ground (
                  arith,
                  z,
                  tl,
                  q.sized,
                  bit i,
                  get_bit-raw r i q,
                  get_or-fill old (i / 8) t,
                  bit-full (i % 8),
                  raw_bit-top_up b.size i r.bytes q.are_bytes,
                ),
          )
    ]

-- Assign on a packed bit field, of as many bytes as the new size needs, gives a packed one whose
-- bits below the size are the bits of those bytes, and no other.
pub get_bit-assign :
    (b : BitField) (raw : List ℕ) (n i : ℕ)
    → IsPacked b
    → All IsByte raw
    → length raw ≡ bits_to_bytes n
    → IsPacked (assign b raw n) × (get_bit (assign b raw n) i ≡ (ltb i n && raw_bit raw i))
unfolding assign
get_bit-assign b raw n i p h e =
    let (q, bit, z) = get_bit-resize b n p in
    let r : BitField = record (resize b n) { bytes = copy (resize b n).bytes raw } in
    let s : IsSized r = record {
      sized = length-copy (resize b n).bytes raw ∙ q.sized;
      are_bytes = copy-IsByte (resize b n).bytes raw q.are_bytes h;
    } in
    let (t, bit') = clear_trailing-Bits r s in
    (t, bit' i ∙ ground (arith, z, q.sized, get_or-copy (resize b n).bytes raw (i / 8)))

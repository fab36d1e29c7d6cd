-- ===== src/BitField.antt =====
-- protocol/bitfield.go: a list of bits, packed eight to a byte, the first in the top bit. `none` is
-- Go's panic at an index out of range. Sizes and indexes are not negative.
pub mod Bytes
pub mod Raw
pub mod Bits
pub mod Refine
mod Examples
use Prim.Native.Nat.{bit_and, bit_or}
use goed2k.Common.{
  ℕ, zero, suc, ◌+◌, ◌-◌, ◌*◌, ◌/◌, ◌%◌, ◌^◌, List, [], ◌∷◌, ◌++◌, map, Bool, true, false, ◌&&◌,
  not, Option, none, some, ltb, leb, ◌==◌, if◌then◌else◌, length, get_elem?, get_or, set, take,
  drop, replicate,
}

pub record BitField : Type 0 where
  pub bytes : List ℕ
  pub size : ℕ

abbrev pub bits_to_bytes : ℕ → ℕ
bits_to_bytes count = (count + 7) / 8

-- `byte(0x80 >> (index & 7))`.
abbrev pub bit_mask : ℕ → ℕ
bit_mask index = 0x80 / 2 ^ (index % 8)

-- An assignment `bytes[i] = f(bytes[i])`, for an index that is in range.
abbrev change_byte : (ℕ → ℕ) → List ℕ → ℕ → List ℕ
change_byte f bytes i = set bytes i (f (get_or bytes i 0))

-- `b.bytes[...] &= byte(0xff << (8 - (b.size & 7)))`.
unfoldable pub clear_trailing_bits : BitField → BitField
clear_trailing_bits b =
    if not (b.size % 8 == 0) && ltb 0 (length b.bytes)
    then record b {
      bytes =
          change_byte (λ x. bit_and x (0xff * 2 ^ (8 - b.size % 8) % 256)) b.bytes
            (bits_to_bytes b.size - 1);
    }
    else b

-- `copy(dst, src)`.
unfoldable pub copy : List ℕ → List ℕ → List ℕ
copy dst src = take (length dst) src ++ drop (length src) dst

unfoldable pub resize : BitField → ℕ → BitField
unfolding clear_trailing_bits copy
resize b size =
    clear_trailing_bits
      (record { bytes = copy (replicate (bits_to_bytes size) 0) b.bytes; size = size })

unfoldable pub new_bit_field : ℕ → BitField
unfolding resize
new_bit_field size = resize (record { bytes = []; size = 0 }) size

-- `for i := n; i < len(bytes); i++ { bytes[i] = 0xff }`.
unfoldable pub fill_from : ℕ → List ℕ → List ℕ
fill_from n [] = []
fill_from zero (x ∷ xs) = 0xff ∷ fill_from zero xs
fill_from (suc n) (x ∷ xs) = x ∷ fill_from n xs

-- `b.bytes[oldSizeBytes-1] |= byte(0xff >> (oldSize & 7))`, under its test.
unfoldable pub top_up : ℕ → List ℕ → List ℕ
top_up old_size bytes =
    let old_bytes = bits_to_bytes old_size in
    if not (old_bytes == 0) && not (old_size % 8 == 0)
    then change_byte (λ x. bit_or x (0xff / 2 ^ (old_size % 8))) bytes (old_bytes - 1)
    else bytes

-- The bits that a larger size adds are set if `val` is.
unfoldable pub resize_with : BitField → ℕ → Bool → BitField
resize_with b size val =
    let r = resize b size in
    let filled = fill_from (bits_to_bytes b.size) (top_up b.size r.bytes) in
    if leb size b.size
    then r
    else (if val then clear_trailing_bits (record r { bytes = filled }) else r)

unfoldable pub set_bit : BitField → ℕ → Option BitField
set_bit b index =
    if ltb (index / 8) (length b.bytes)
    then some
        (record b { bytes = change_byte (λ x. bit_or x (bit_mask index)) b.bytes (index / 8) })
    else none

-- A bit behind the end reads as false. One in range lies in a byte that is there (`IsPacked`).
unfoldable pub get_bit : BitField → ℕ → Bool
get_bit b index =
    if leb b.size index
    then false
    else not (bit_and (get_or b.bytes (index / 8) 0) (bit_mask index) == 0)

unfoldable pub clear_bit : BitField → ℕ → Option BitField
clear_bit b index =
    if ltb (index / 8) (length b.bytes)
    then some (record b {
      bytes = change_byte (λ x. bit_and x (255 - bit_mask index)) b.bytes (index / 8);
    })
    else none

-- The bits from `i` on, `n` of them.
unfoldable pub bits_from : BitField → ℕ → ℕ → List Bool
unfolding get_bit
bits_from b i zero = []
bits_from b i (suc n) = get_bit b i ∷ bits_from b (i + 1) n

unfoldable pub bits : BitField → List Bool
unfolding bits_from
bits b = bits_from b 0 b.size

unfoldable pub set_all : BitField → BitField
unfolding clear_trailing_bits
set_all b = clear_trailing_bits (record b { bytes = map (λ _. 0xff) b.bytes })

unfoldable pub clear_all : BitField → BitField
clear_all b = record b { bytes = map (λ _. 0) b.bytes }

-- The loop of `Count` over `n` bits from `i` on.
unfoldable pub count_from : BitField → ℕ → ℕ → ℕ
unfolding get_bit
count_from b i zero = 0
count_from b i (suc n) = (if get_bit b i then 1 else 0) + count_from b (i + 1) n

unfoldable pub count : BitField → ℕ
unfolding count_from
count b = count_from b 0 b.size

unfoldable pub assign : BitField → List ℕ → ℕ → BitField
unfolding resize
assign b raw bits =
    let r = resize b bits in clear_trailing_bits (record r { bytes = copy r.bytes raw })

-- ===== src/Wire/Tag/RoundTrip.antt =====
-- Tags are read back as they were written.
use Prim.Native.Nat.{bit_and, bit_or}
use goed2k.Common.{
  ℕ, ◌+◌, ◌-◌, ◌%◌, ◌^◌, ◌<◌, ◌≤◌, ◌≡◌, ◌≢◌, refl, List, [], ◌∷◌, ◌++◌, append_assoc, length, true,
  ◌&&◌, not, ◌==◌, arith, all_below, all_below_lem, ◌⊎◌, inl, inr,
}
use goed2k.Wire.{ok}
use goed2k.Wire.Basic.{read_byte, write_le}
use goed2k.Wire.RoundTrip.{
  read_uint16-write, read_uint32-write, read_uint64-write, read_bytes-write,
}
use goed2k.Wire.Tag.{
  SimpleTag, tag_type_string, tag_type_uint32, tag_type_uint16, tag_type_uint8, tag_type_uint64,
  tag_type_str1, get_name, get_value, get_tag, put_name, put_value, put_tag,
}

-- The value fields that a tag of a kind has after it was read.
pub data IsValue (t : SimpleTag) : Type 0 where
  byte_value :
      t.kind ≡ tag_type_uint8 → t.uint64 < 256 → t.uint32 ≡ t.uint64 → t.text ≡ [] → IsValue t
  short_value :
      t.kind ≡ tag_type_uint16 → t.uint64 < 65536 → t.uint32 ≡ t.uint64 → t.text ≡ [] → IsValue t
  word_value :
      t.kind ≡ tag_type_uint32 → t.uint64 < 2 ^ 32 → t.uint32 ≡ t.uint64 → t.text ≡ [] → IsValue t
  long_value :
      t.kind ≡ tag_type_uint64
      → t.uint64 < 2 ^ 64
      → t.uint32 ≡ t.uint64 % 2 ^ 32
      → t.text ≡ []
      → IsValue t
  string_value :
      t.kind ≡ tag_type_string → length t.text < 65536 → t.uint32 ≡ 0 → t.uint64 ≡ 0 → IsValue t
  short_string :
      t.kind ≡ tag_type_str1 + (length t.text - 1)
      → 1 ≤ length t.text
      → length t.text ≤ 16
      → t.uint32 ≡ 0
      → t.uint64 ≡ 0
      → IsValue t

pub record IsTag (t : SimpleTag) : Type 0 where
  pub value : IsValue t
  pub small_id : t.id < 256
  -- A tag has an id and no name, or a name of two bytes or more.
  pub named : (t.name ≡ []) ⊎ ((t.id ≡ 0) × (2 ≤ length t.name) × (length t.name < 65536))

value-write :
    (t : SimpleTag) (rest : List ℕ)
    → IsValue t
    → get_value t.kind (put_value t ++ rest) ≡ ok ((t.text, t.uint32, t.uint64), rest)
unfolding get_value put_value read_byte
value-write t rest (byte_value e h u x) = ground arith
value-write t rest (short_value e h u x) = ground (arith, read_uint16-write t.uint64 rest)
value-write t rest (word_value e h u x) = ground (arith, read_uint32-write t.uint64 rest)
value-write t rest (long_value e h u x) = ground (arith, read_uint64-write t.uint64 rest)
value-write t rest (string_value e h u x) = ground (
  arith,
  append_assoc (write_le 2 (length t.text)) t.text rest,
  read_uint16-write (length t.text) (t.text ++ rest),
  read_bytes-write t.text rest,
)
value-write t rest (short_string e h k u x) = ground (arith, read_bytes-write t.text rest)

IsValue-kind : (t : SimpleTag) → IsValue t → t.kind < 128
IsValue-kind t (byte_value e h u x) = omega arith
IsValue-kind t (short_value e h u x) = omega arith
IsValue-kind t (word_value e h u x) = omega arith
IsValue-kind t (long_value e h u x) = omega arith
IsValue-kind t (string_value e h u x) = omega arith
IsValue-kind t (short_string e h k u x) = omega arith

-- The top bit says that the id follows, and is no part of the kind.
kind_table :
    all_below 128 (λ k.
      not (bit_and (bit_or k 0x80) 0x80 == 0)
      && (bit_and (bit_or k 0x80) 0x7f == k && (bit_and k 0x80 == 0 && bit_and k 0x7f == k)))
    ≡ true
unfolding all_below
kind_table = refl

kind_bits :
    (k : ℕ)
    → k < 128
    → (bit_and (bit_or k 0x80) 0x80 ≢ 0)
      × (bit_and (bit_or k 0x80) 0x7f ≡ k)
      × (bit_and k 0x80 ≡ 0)
      × (bit_and k 0x7f ≡ k)
kind_bits k h = ground (arith, all_below_lem 128 _ k kind_table h)

id-write :
    (k id : ℕ) (rest : List ℕ)
    → k < 128
    → get_name (bit_or k 0x80) (id ∷ rest) ≡ ok ((id, []), rest)
unfolding get_name read_byte
id-write k id rest h = let b = kind_bits k h in ground (arith, b.0)

name-write :
    (k : ℕ) (name rest : List ℕ)
    → k < 128
    → 2 ≤ length name
    → length name < 65536
    → get_name k ((write_le 2 (length name) ++ name) ++ rest) ≡ ok ((0, name), rest)
unfolding get_name
name-write k [] rest h l m = absurd (omega arith)
name-write k (x ∷ xs) rest h l m =
    let b = kind_bits k h in
    ground (
      arith,
      b.2,
      append_assoc (write_le 2 (length (x ∷ xs))) (x ∷ xs) rest,
      read_uint16-write (length (x ∷ xs)) ((x ∷ xs) ++ rest),
      read_bytes-write (x ∷ xs) rest,
    )

-- A tag whose value fields agree with its kind and fit it, with an id below 256 and either no
-- name or no id and a name of 2 to 65535 bytes, is read back by Get as Put wrote it, and what
-- follows it is left.
pub get_tag-put :
    (t : SimpleTag) (rest : List ℕ) → IsTag t → get_tag (put_tag t ++ rest) ≡ ok (t, rest)
unfolding get_tag put_tag put_name read_byte
get_tag-put t rest h =
    let k = IsValue-kind t h.value in
    let b = kind_bits t.kind k in
    let v = value-write t rest h.value in
    elim h.named [
      | inl e ↦ ground (arith, b.1, v, id-write t.kind t.id (put_value t ++ rest) k)
      | inr (z, l, m) ↦ ground (
        arith,
        z,
        l,
        m,
        b.3,
        v,
        append_assoc (write_le 2 (length t.name) ++ t.name) (put_value t) rest,
        name-write t.kind t.name (put_value t ++ rest) k,
      )
    ]

-- ===== src/Wire/Tag.antt =====
-- Tags: protocol/simple_tag.go. A Go string is the list of its bytes.
pub mod RoundTrip
pub mod Lists
use Prim.Native.Nat.{bit_and, bit_or}
use goed2k.Common.{
  ℕ, zero, suc, ◌+◌, ◌-◌, ◌*◌, ◌/◌, ◌%◌, ◌^◌, List, [], ◌∷◌, ◌++◌, length, Bool, true, false, ◌&&◌,
  not, ltb, leb, ◌==◌, if◌then◌else◌,
}
use goed2k.Wire.{Error, too_many_tags, Result, ok, err, Reader, ◌>>=◌, pure, fail}
use goed2k.Wire.Basic.{
  read_byte, read_le, write_le, read_bytes, read_uint16, read_uint32, read_uint64, write_byte,
  write_uint16, write_uint32, write_uint64,
}

abbrev pub tag_type_string : ℕ
tag_type_string = 0x02

abbrev pub tag_type_uint32 : ℕ
tag_type_uint32 = 0x03

abbrev pub tag_type_uint16 : ℕ
tag_type_uint16 = 0x08

abbrev pub tag_type_uint8 : ℕ
tag_type_uint8 = 0x09

abbrev pub tag_type_uint64 : ℕ
tag_type_uint64 = 0x0B

abbrev pub tag_type_str1 : ℕ
tag_type_str1 = 0x11

abbrev pub tag_min_bytes : ℕ
tag_min_bytes = 2

-- The field `Type` is `kind`, and `String` is `text`.
pub record SimpleTag : Type 0 where
  pub kind : ℕ
  pub id : ℕ
  pub name : List ℕ
  pub text : List ℕ
  pub uint32 : ℕ
  pub uint64 : ℕ

abbrev pub is_empty : List ℕ → Bool
is_empty [] = true
is_empty (x ∷ xs) = false

-- `raw[0]` if the name has one byte, and the name if not.
abbrev named : ℕ → List ℕ → List ℕ → ℕ × List ℕ
named size [] name = (0, name)
named size (x ∷ xs) name = if size == 1 then (x, []) else (0, name)

-- The id and the name.
unfoldable pub get_name : ℕ → Reader (ℕ × List ℕ)
unfolding read_byte read_le read_bytes
get_name tag_type =
    let by_id = read_byte >>= λ id. pure (id, []) in
    let by_name = read_uint16 >>= λ size. read_bytes size >>= λ raw. pure (named size raw raw) in
    if bit_and tag_type 0x80 == 0 then by_name else by_id

abbrev pub is_short_string : ℕ → Bool
is_short_string kind = leb tag_type_str1 kind && leb kind (tag_type_str1 + 15)

-- The switch of `Get`: the values of `String`, `UInt32` and `UInt64`.
unfoldable pub get_value : ℕ → Reader (List ℕ × ℕ × ℕ)
unfolding read_byte read_le read_bytes
get_value kind =
    if kind == tag_type_uint8
    then (read_byte >>= λ v. pure ([], v, v))
    else (if kind == tag_type_uint16
        then (read_uint16 >>= λ v. pure ([], v, v))
        else (if kind == tag_type_uint32
            then (read_uint32 >>= λ v. pure ([], v, v))
            else (if kind == tag_type_uint64
                then (read_uint64 >>= λ v. pure ([], v % 2 ^ 32, v))
                else (if kind == tag_type_string
                    then (read_uint16 >>= λ size. read_bytes size >>= λ value. pure (value, 0, 0))
                    else (if is_short_string kind
                        then (read_bytes (kind - tag_type_str1 + 1) >>= λ value. pure (value, 0, 0))
                        else pure ([], 0, 0))))))

unfoldable pub get_tag : Reader SimpleTag
unfolding get_name get_value
get_tag = do
  tag_type ← read_byte
  (id, name) ← get_name tag_type
  (text, uint32, uint64) ← get_value (bit_and tag_type 0x7f)
  pure (record {
    kind = bit_and tag_type 0x7f;
    id = id;
    name = name;
    text = text;
    uint32 = uint32;
    uint64 = uint64;
  })

unfoldable pub put_name : SimpleTag → List ℕ
unfolding write_le
put_name t =
    if is_empty t.name
    then write_byte (bit_or t.kind 0x80) ++ write_byte t.id
    else write_byte t.kind ++ (write_uint16 (length t.name % 65536) ++ t.name)

unfoldable pub put_value : SimpleTag → List ℕ
unfolding write_le
put_value t =
    if t.kind == tag_type_uint8
    then write_byte (t.uint64 % 256)
    else (if t.kind == tag_type_uint16
        then write_uint16 (t.uint64 % 65536)
        else (if t.kind == tag_type_uint32
            then (if not (t.uint32 == 0)
                then write_uint32 t.uint32
                else write_uint32 (t.uint64 % 2 ^ 32))
            else (if t.kind == tag_type_uint64
                then write_uint64 t.uint64
                else (if t.kind == tag_type_string
                    then write_uint16 (length t.text % 65536) ++ t.text
                    else (if is_short_string t.kind then t.text else [])))))

unfoldable pub put_tag : SimpleTag → List ℕ
unfolding put_name put_value
put_tag t = put_name t ++ put_value t

unfoldable pub tag_bytes_count : SimpleTag → ℕ
tag_bytes_count t =
    let size = if is_empty t.name then 2 else 1 + 2 + length t.name in
    if t.kind == tag_type_uint8
    then size + 1
    else (if t.kind == tag_type_uint16
        then size + 2
        else (if t.kind == tag_type_uint32
            then size + 4
            else (if t.kind == tag_type_uint64
                then size + 8
                else (if t.kind == tag_type_string
                    then size + 2 + length t.text
                    else size + length t.text))))

abbrev new_tag : ℕ → ℕ → SimpleTag
new_tag kind id = record { kind = kind; id = id; name = []; text = []; uint32 = 0; uint64 = 0 }

unfoldable pub new_uint32_tag : ℕ → ℕ → SimpleTag
new_uint32_tag id value = record (new_tag tag_type_uint32 id) { uint32 = value; uint64 = value }

unfoldable pub new_string_tag : ℕ → List ℕ → SimpleTag
new_string_tag id value =
    if leb 1 (length value) && leb (length value) 16
    then record (new_tag (tag_type_str1 + (length value - 1) % 256) id) { text = value }
    else record (new_tag tag_type_string id) { text = value }

-- The loop of `TagList.Get` over `count` tags.
unfoldable pub get_tags : ℕ → Reader (List SimpleTag)
unfolding get_tag
get_tags zero = pure []
get_tags (suc n) = get_tag >>= λ t. get_tags n >>= λ ts. pure (t ∷ ts)

-- The number of tags is tested against what is left of the input, as a uint32.
unfoldable pub get_tag_list : Reader (List SimpleTag)
unfolding get_tags
get_tag_list = read_uint32 >>= λ count. λ src.
    if ltb (length src / tag_min_bytes % 2 ^ 32) count
    then err too_many_tags
    else get_tags count src

unfoldable pub put_tags : List SimpleTag → List ℕ
unfolding put_tag
put_tags [] = []
put_tags (t ∷ ts) = put_tag t ++ put_tags ts

unfoldable pub put_tag_list : List SimpleTag → List ℕ
unfolding put_tags
put_tag_list ts = write_uint32 (length ts % 2 ^ 32) ++ put_tags ts

unfoldable pub tags_bytes_count : List SimpleTag → ℕ
unfolding tag_bytes_count
tags_bytes_count [] = 0
tags_bytes_count (t ∷ ts) = tag_bytes_count t + tags_bytes_count ts

unfoldable pub tag_list_bytes_count : List SimpleTag → ℕ
unfolding tags_bytes_count
tag_list_bytes_count ts = 4 + tags_bytes_count ts

-- ===== src/Wire/Tag/Lists.antt =====
-- Lists of tags, and the sizes that `BytesCount` announces.
use goed2k.Common.{
  ℕ, ◌+◌, ◌*◌, ◌%◌, ◌^◌, ◌<◌, ◌≤◌, ◌≡◌, refl, List, [], ◌∷◌, ◌++◌, append_assoc, length,
  length-append, if◌then◌else◌, arith, All,
}
use goed2k.Wire.{ok}
use goed2k.Wire.Basic.{write_le}
use goed2k.Wire.RoundTrip.{read_uint32-write, length-write_le}
use goed2k.Wire.Tag.{
  SimpleTag, is_empty, put_name, put_value, put_tag, tag_bytes_count, get_tags, get_tag_list,
  put_tags, put_tag_list, tags_bytes_count, tag_list_bytes_count,
}
use goed2k.Wire.Tag.RoundTrip.{
  IsTag, IsValue, byte_value, short_value, word_value, long_value, string_value, short_string,
  get_tag-put,
}

abbrev name_size : SimpleTag → ℕ
name_size t = if is_empty t.name then 2 else 1 + 2 + length t.name

length-put_name : (t : SimpleTag) → length (put_name t) ≡ name_size t
unfolding put_name
length-put_name t = ground arith

length-put_value :
    (t : SimpleTag) → IsValue t → length (put_value t) + name_size t ≡ tag_bytes_count t
unfolding put_value tag_bytes_count
length-put_value t (byte_value e h u x) = ground arith
length-put_value t (short_value e h u x) = ground arith
length-put_value t (word_value e h u x) = ground arith
length-put_value t (long_value e h u x) = ground arith
length-put_value t (string_value e h u x) = ground arith
length-put_value t (short_string e h k u x) = ground arith

-- `BytesCount` is the number of bytes that `Put` writes.
pub length-put_tag : (t : SimpleTag) → IsTag t → length (put_tag t) ≡ tag_bytes_count t
unfolding put_tag
length-put_tag t h =
    omega (
      arith,
      length-append (put_name t) (put_value t),
      length-put_name t,
      length-put_value t h.value,
    )

two-le-put_tag : (t : SimpleTag) → 2 ≤ length (put_tag t)
unfolding put_tag
two-le-put_tag t = ground (arith, length-append (put_name t) (put_value t), length-put_name t)

enough : (ts : List SimpleTag) → 2 * length ts ≤ length (put_tags ts)
unfolding put_tags
enough [] = omega arith
enough (t ∷ ts) =
    omega (arith, length-append (put_tag t) (put_tags ts), two-le-put_tag t, enough ts)

pub get_tags-put :
    (ts : List SimpleTag) (rest : List ℕ)
    → All IsTag ts
    → get_tags (length ts) (put_tags ts ++ rest) ≡ ok (ts, rest)
unfolding get_tags put_tags
get_tags-put [] rest h = refl
get_tags-put (t ∷ ts) rest h = rw (
  append_assoc (put_tag t) (put_tags ts) rest,
  get_tag-put t (put_tags ts ++ rest) h.0,
  get_tags-put ts rest h.1,
)

pub length-put_tags :
    (ts : List SimpleTag) → All IsTag ts → length (put_tags ts) ≡ tags_bytes_count ts
unfolding put_tags tags_bytes_count
length-put_tags [] h = refl
length-put_tags (t ∷ ts) h =
    omega
      (arith, length-append (put_tag t) (put_tags ts), length-put_tag t h.0, length-put_tags ts h.1)

-- A list of fewer than 2^32 tags is read back by Get as Put wrote it, and what follows it is
-- left, if the list and what follows take fewer than 2^33 bytes: the test of the number of tags
-- against the bytes that are left does not refuse it. Each tag is an unsigned number of 8, 16,
-- 32 or 64 bits or a string, short ones of 1 to 16 bytes included, in the fields that a reading
-- gives, with an id of one byte and no name, or id 0 and a name of 2 to 65535 bytes.
pub get_tag_list-put :
    (ts : List SimpleTag) (rest : List ℕ)
    → All IsTag ts
    → length ts < 2 ^ 32
    → length (put_tag_list ts ++ rest) < 2 ^ 33
    → get_tag_list (put_tag_list ts ++ rest) ≡ ok (ts, rest)
unfolding get_tag_list put_tag_list
get_tag_list-put ts rest h l b = ground (
  arith,
  b,
  length-append (write_le 4 (length ts)) (put_tags ts ++ rest),
  append_assoc (write_le 4 (length ts)) (put_tags ts) rest,
  read_uint32-write (length ts) (put_tags ts ++ rest) l,
  length-append (put_tags ts) rest,
  enough ts,
  get_tags-put ts rest h,
)

-- For a list of valid tags BytesCount is the number of bytes that Put writes.
pub length-put_tag_list :
    (ts : List SimpleTag) → All IsTag ts → length (put_tag_list ts) ≡ tag_list_bytes_count ts
unfolding put_tag_list tag_list_bytes_count
length-put_tag_list ts h = omega (
  arith,
  length-append (write_le 4 (length ts % 2 ^ 32)) (put_tags ts),
  length-write_le 4 (length ts % 2 ^ 32),
  length-put_tags ts h,
)

-- The number of tags alone takes four bytes.
pub announced : (ts : List SimpleTag) → 4 ≤ tag_list_bytes_count ts
unfolding tag_list_bytes_count
announced ts = omega arith

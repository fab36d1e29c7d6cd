-- ===== src/Wire/Examples.antt =====
-- Runs of the readers and writers, and the theorems at concrete inputs.
use goed2k.Common.{◌≡◌, refl, List, [], ◌∷◌, ◌++◌, inl, arith}
use goed2k.Wire.{ok}
use goed2k.Wire.Basic.{read_bytes, read_le, write_le, Endpoint}
use goed2k.Wire.RoundTrip.{read_bytes_short, read_le-write}
use goed2k.Wire.Tag.{
  SimpleTag, put_name, put_value, put_tag, put_tags, get_tag_list, put_tag_list, new_uint32_tag,
  new_string_tag,
}
use goed2k.Wire.Tag.RoundTrip.{IsTag, word_value, short_string}
use goed2k.Wire.Tag.Lists.{get_tag_list-put}

read_bytes_short_example : read_bytes 4 (7 ∷ 8 ∷ []) ≡ ok (7 ∷ 8 ∷ 0 ∷ 0 ∷ [], [])
read_bytes_short_example = read_bytes_short 4 (7 ∷ 8 ∷ []) (omega arith) (omega arith)

read_le-write_example : read_le 4 (write_le 4 0x12345678 ++ (9 ∷ [])) ≡ ok (0x12345678, 9 ∷ [])
read_le-write_example = read_le-write 3 0x12345678 (9 ∷ []) (omega arith)

abbrev a_point : Endpoint
a_point = record { ip = 0x0100007f; port = 4662 }

-- The tag of a name of three bytes, as `NewStringTag` makes it.
abbrev a_name : SimpleTag
a_name = record { kind = 0x13; id = 1; name = []; text = 97 ∷ 98 ∷ 99 ∷ []; uint32 = 0; uint64 = 0 }

abbrev a_size : SimpleTag
a_size = record { kind = 0x03; id = 2; name = []; text = []; uint32 = 5; uint64 = 5 }

a_name_made : new_string_tag 1 (97 ∷ 98 ∷ 99 ∷ []) ≡ a_name
unfolding new_string_tag
a_name_made = refl

a_size_made : new_uint32_tag 2 5 ≡ a_size
unfolding new_uint32_tag
a_size_made = refl

a_name-IsTag : IsTag a_name
a_name-IsTag = record {
  value = short_string refl (omega arith) (omega arith) refl refl;
  small_id = omega arith;
  named = inl refl;
}

a_size-IsTag : IsTag a_size
a_size-IsTag = record {
  value = word_value refl (omega arith) refl refl;
  small_id = omega arith;
  named = inl refl;
}

abbrev two_tags : List SimpleTag
two_tags = a_name ∷ a_size ∷ []

get_tag_list-put_example : get_tag_list (put_tag_list two_tags ++ []) ≡ ok (two_tags, [])
unfolding put_tag_list put_tags put_tag put_name put_value
get_tag_list-put_example =
    get_tag_list-put two_tags [] (a_name-IsTag, (a_size-IsTag, tt)) (omega arith) (omega arith)

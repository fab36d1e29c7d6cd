-- ===== src/Wire/Status.antt =====
-- A bit field on the wire, of protocol/bitfield.go, and protocol/client/file_status_answer.go.
pub mod Faithful
use goed2k.Common.{ℕ, ◌+◌, ◌%◌, List, [], ◌++◌, length}
use goed2k.BitField.{BitField, bits_to_bytes, assign}
use goed2k.Wire.{Reader, ◌>>=◌, pure, Serializable}
use goed2k.Wire.Basic.{Hash, read_uint16, write_uint16, read_bytes, read_hash, write_hash}

unfoldable pub get_bit_field : Reader BitField
get_bit_field = do
  size ← read_uint16
  temp ← read_bytes (bits_to_bytes size)
  pure (assign (record { bytes = []; size = 0 }) temp size)

unfoldable pub put_bit_field : BitField → List ℕ
put_bit_field b = write_uint16 (b.size % 65536) ++ b.bytes

abbrev pub bit_field_format : Serializable BitField
bit_field_format = record {
  get = get_bit_field;
  put = put_bit_field;
  bytes_count = λ b. 2 + length b.bytes;
}

pub record FileStatusAnswer : Type 0 where
  pub hash : Hash
  pub bit_field : BitField

unfoldable pub get_file_status_answer : Reader FileStatusAnswer
get_file_status_answer = do
  hash ← read_hash
  field ← get_bit_field
  pure (record { hash = hash; bit_field = field })

unfoldable pub put_file_status_answer : FileStatusAnswer → List ℕ
put_file_status_answer f = write_hash f.hash ++ put_bit_field f.bit_field

abbrev pub file_status_format : Serializable FileStatusAnswer
file_status_format = record {
  get = get_file_status_answer;
  put = put_file_status_answer;
  bytes_count = λ f. 16 + (2 + length f.bit_field.bytes);
}

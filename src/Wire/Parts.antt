-- ===== src/Wire/Parts.antt =====
-- The packets that ask for and carry parts of a file: protocol/client/request_parts.go,
-- sending_part.go and compressed_part.go. The forms for 32 and 64 bits differ in the `width` of an
-- offset, 4 or 8 bytes; the compressed length has 4 bytes in both.
pub mod Faithful
use goed2k.Common.{
  ℕ, zero, suc, ◌+◌, ◌-◌, ◌*◌, ◌%◌, ◌^◌, List, [], ◌∷◌, ◌++◌, length, set, Bool, ltb, Option, none,
  some, if◌then◌else◌,
}
use goed2k.Geometry.{Range}
use goed2k.Wire.{Error, Result, ok, err, Reader, ◌>>=◌, pure, Serializable}
use goed2k.Wire.Basic.{read_le, write_le, read_hash, write_hash, Hash, read_uint32, write_uint32}

-- SendingPart32 and SendingPart64.
pub record SendingPart : Type 0 where
  pub hash : Hash
  pub begin_offset : ℕ
  pub end_offset : ℕ

unfoldable pub get_sending_part : ℕ → Reader SendingPart
get_sending_part width = do
  hash ← read_hash
  begin ← read_le width
  end ← read_le width
  pure (record { hash = hash; begin_offset = begin; end_offset = end })

unfoldable pub put_sending_part : ℕ → SendingPart → List ℕ
put_sending_part width s =
    write_hash s.hash ++ (write_le width s.begin_offset ++ write_le width s.end_offset)

abbrev pub sending_part_format : ℕ → Serializable SendingPart
sending_part_format width = record {
  get = get_sending_part width;
  put = put_sending_part width;
  bytes_count = λ _. 16 + 2 * width;
}

-- `int(s.EndOffset - s.BeginOffset)`: the difference wraps around at the width.
unfoldable pub payload_size : ℕ → SendingPart → ℕ
payload_size width s = (s.end_offset + 256 ^ width - s.begin_offset) % 256 ^ width

-- CompressedPart32 and CompressedPart64.
pub record CompressedPart : Type 0 where
  pub hash : Hash
  pub begin_offset : ℕ
  pub compressed_length : ℕ

unfoldable pub get_compressed_part : ℕ → Reader CompressedPart
get_compressed_part width = do
  hash ← read_hash
  begin ← read_le width
  length' ← read_uint32
  pure (record { hash = hash; begin_offset = begin; compressed_length = length' })

unfoldable pub put_compressed_part : ℕ → CompressedPart → List ℕ
put_compressed_part width c =
    write_hash c.hash ++ (write_le width c.begin_offset ++ write_uint32 c.compressed_length)

abbrev pub compressed_part_format : ℕ → Serializable CompressedPart
compressed_part_format width = record {
  get = get_compressed_part width;
  put = put_compressed_part width;
  bytes_count = λ _. 16 + (width + 4);
}

abbrev pub parts_in_request : ℕ
parts_in_request = 3

-- RequestParts32 and RequestParts64; the two arrays have `parts_in_request` offsets each.
pub record RequestParts : Type 0 where
  pub hash : Hash
  pub current_free : ℕ
  pub begin_offset : List ℕ
  pub end_offset : List ℕ

-- A fourth range panics.
unfoldable pub append_range : ℕ → RequestParts → Range → Option RequestParts
append_range width r rg =
    if ltb r.current_free parts_in_request
    then some (record r {
      begin_offset = set r.begin_offset r.current_free (rg.left % 256 ^ width);
      end_offset = set r.end_offset r.current_free (rg.right % 256 ^ width);
      current_free = r.current_free + 1;
    })
    else none

-- A loop over an array of offsets.
unfoldable pub get_offsets : ℕ → ℕ → Reader (List ℕ)
get_offsets width zero = pure []
get_offsets width (suc n) = read_le width >>= λ v. get_offsets width n >>= λ vs. pure (v ∷ vs)

unfoldable pub put_offsets : ℕ → List ℕ → List ℕ
put_offsets width [] = []
put_offsets width (v ∷ vs) = write_le width v ++ put_offsets width vs

unfoldable pub get_request_parts : ℕ → Reader RequestParts
get_request_parts width = do
  hash ← read_hash
  begins ← get_offsets width parts_in_request
  ends ← get_offsets width parts_in_request
  pure (record {
    hash = hash;
    current_free = parts_in_request;
    begin_offset = begins;
    end_offset = ends;
  })

unfoldable pub put_request_parts : ℕ → RequestParts → List ℕ
put_request_parts width r =
    write_hash r.hash ++ (put_offsets width r.begin_offset ++ put_offsets width r.end_offset)

abbrev pub request_parts_format : ℕ → Serializable RequestParts
request_parts_format width = record {
  get = get_request_parts width;
  put = put_request_parts width;
  bytes_count = λ _. 16 + parts_in_request * 2 * width;
}

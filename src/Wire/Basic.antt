-- ===== src/Wire/Basic.antt =====
-- Bytes, little-endian numbers and byte strings: protocol/serializable.go and protocol/helpers.go.
-- An int32 is its bit pattern.
use goed2k.Common.{
  ℕ, zero, suc, ◌+◌, ◌-◌, ◌*◌, ◌/◌, ◌%◌, List, [], ◌∷◌, ◌++◌, length, take, drop, replicate, ◌==◌,
  if◌then◌else◌,
}
use goed2k.Wire.{eof, unexpected_eof, illegal_argument, Result, ok, err, Reader, ◌>>=◌, pure}

unfoldable pub read_byte : Reader ℕ
read_byte [] = err eof
read_byte (x ∷ xs) = ok (x, xs)

-- `binary.Read` of `k` bytes in little-endian order, after the first byte: the input ends inside the value.
unfoldable pub read_le_rest : ℕ → Reader ℕ
read_le_rest zero src = ok (0, src)
read_le_rest (suc k) [] = err unexpected_eof
read_le_rest (suc k) (x ∷ xs) = (read_le_rest k >>= λ v. pure (x + 256 * v)) xs

-- `binary.Read`: an empty input is `io.EOF`.
unfoldable pub read_le : ℕ → Reader ℕ
unfolding read_le_rest
read_le k [] = err eof
read_le k (x ∷ xs) = read_le_rest k (x ∷ xs)

-- `binary.Write` of `k` bytes in little-endian order; higher bits are cut off.
unfoldable pub write_le : ℕ → ℕ → List ℕ
write_le zero v = []
write_le (suc k) v = (v % 256) ∷ write_le k (v / 256)

abbrev pub read_uint16 : Reader ℕ
read_uint16 = read_le 2

abbrev pub read_uint32 : Reader ℕ
read_uint32 = read_le 4

abbrev pub read_int32 : Reader ℕ
read_int32 = read_le 4

abbrev pub read_uint64 : Reader ℕ
read_uint64 = read_le 8

abbrev pub write_byte : ℕ → List ℕ
write_byte v = v ∷ []

abbrev pub write_uint16 : ℕ → List ℕ
write_uint16 = write_le 2

abbrev pub write_uint32 : ℕ → List ℕ
write_uint32 = write_le 4

abbrev pub write_int32 : ℕ → List ℕ
write_int32 = write_le 4

abbrev pub write_uint64 : ℕ → List ℕ
write_uint64 = write_le 8

-- `readBytes` makes one call of `Read` into a buffer of zeros. `bytes.Reader.Read` fails only on an empty
-- input; from a short one it copies what there is, and the rest of the buffer stays zero.
unfoldable pub read_bytes : ℕ → Reader (List ℕ)
read_bytes zero src = ok ([], src)
read_bytes (suc n) [] = err eof
read_bytes (suc n) (x ∷ xs) =
    ok (take (suc n) (x ∷ xs) ++ replicate (suc n - length (x ∷ xs)) 0, drop (suc n) (x ∷ xs))

-- A hash is 16 bytes.
abbrev pub Hash : Type 0
Hash = List ℕ

abbrev pub hash_size : ℕ
hash_size = 16

unfoldable pub hash_from_bytes : List ℕ → Result Hash
hash_from_bytes value = if length value == hash_size then ok value else err illegal_argument

-- The result of a function that reads nothing.
abbrev pub lift : {A : Type 0} → Result A → Reader A
lift (ok a) src = ok (a, src)
lift (err e) src = err e

unfoldable pub read_hash : Reader Hash
unfolding read_bytes hash_from_bytes
read_hash = do raw ← read_bytes hash_size; lift (hash_from_bytes raw)

abbrev pub write_hash : Hash → List ℕ
write_hash hash = hash

-- protocol/endpoint.go: the address as the bit pattern of its int32, and the port.
pub record Endpoint : Type 0 where
  pub ip : ℕ
  pub port : ℕ

unfoldable pub read_endpoint : Reader Endpoint
unfolding read_le
read_endpoint = do ip ← read_int32; port ← read_uint16; pure (record { ip = ip; port = port })

-- `uint16(endpoint.Port())` cuts a larger port off.
unfoldable pub write_endpoint : Endpoint → List ℕ
unfolding write_le
write_endpoint e = write_int32 e.ip ++ write_uint16 (e.port % 65536)

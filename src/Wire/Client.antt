-- ===== src/Wire/Client.antt =====
-- The packets between clients: protocol/client/.
pub mod Faithful
use goed2k.Common.{
  ℕ, zero, suc, ◌+◌, ◌-◌, ◌*◌, ◌%◌, ◌^◌, List, [], ◌∷◌, ◌++◌, length, Bool, ltb, leb, if◌then◌else◌,
}
use goed2k.Common.Int.{ℤ, sub_ℕ}
use goed2k.Wire.{Error, Result, ok, err, Reader, ◌>>=◌, pure, fail, Serializable}
use goed2k.Wire.Basic.{
  read_byte, read_le, write_le, read_hash, write_hash, Hash, Endpoint, read_endpoint,
  write_endpoint, read_uint16, read_uint32, read_uint64, write_byte, write_uint16, write_uint32,
  write_uint64,
}
use goed2k.Wire.Tag.{SimpleTag, get_tag_list, put_tag_list, tag_list_bytes_count}
use goed2k.Wire.Header.{ByteContainer16, get_container, put_container}

pub record HelloAnswer : Type 0 where
  pub hash : Hash
  pub point : Endpoint
  pub properties : List SimpleTag
  pub server_point : Endpoint

unfoldable pub get_hello_answer : Reader HelloAnswer
get_hello_answer = do
  raw ← read_hash
  point ← read_endpoint
  properties ← get_tag_list
  server_point ← read_endpoint
  pure (record { hash = raw; point = point; properties = properties; server_point = server_point })

unfoldable pub put_hello_answer : HelloAnswer → List ℕ
put_hello_answer h =
    write_hash h.hash
    ++ (write_endpoint h.point ++ (put_tag_list h.properties ++ write_endpoint h.server_point))

abbrev pub hello_answer_format : Serializable HelloAnswer
hello_answer_format = record {
  get = get_hello_answer;
  put = put_hello_answer;
  bytes_count = λ h. 16 + 6 + tag_list_bytes_count h.properties + 6;
}

pub record Hello : Type 0 where
  pub hash_length : ℕ
  pub answer : HelloAnswer

unfoldable pub get_hello : Reader Hello
unfolding read_byte
get_hello = do
  value ← read_byte
  answer ← get_hello_answer
  pure (record { hash_length = value; answer = answer })

unfoldable pub put_hello : Hello → List ℕ
put_hello h = write_byte h.hash_length ++ put_hello_answer h.answer

abbrev pub hello_format : Serializable Hello
hello_format = record {
  get = get_hello;
  put = put_hello;
  bytes_count = λ h. 1 + hello_answer_format.bytes_count h.answer;
}

pub record ExtendedHandshake : Type 0 where
  pub version : ℕ
  pub protocol_version : ℕ
  pub properties : List SimpleTag

-- An old client sends no properties.
abbrev get_properties : Reader (List SimpleTag)
get_properties src = if ltb 0 (length src) then get_tag_list src else ok ([], src)

unfoldable pub get_extended_handshake : Reader ExtendedHandshake
unfolding read_byte
get_extended_handshake = do
  version ← read_byte
  protocol_version ← read_byte
  properties ← get_properties
  pure (record { version = version; protocol_version = protocol_version; properties = properties })

unfoldable pub put_extended_handshake : ExtendedHandshake → List ℕ
put_extended_handshake e =
    write_byte e.version ++ (write_byte e.protocol_version ++ put_tag_list e.properties)

abbrev pub extended_handshake_format : Serializable ExtendedHandshake
extended_handshake_format = record {
  get = get_extended_handshake;
  put = put_extended_handshake;
  bytes_count = λ e. 2 + tag_list_bytes_count e.properties;
}

-- FileRequest, FileStatusRequest, HashSetRequest, NoFileStatus and StartUpload are one hash each.
abbrev pub hash_format : Serializable Hash
hash_format = record { get = read_hash; put = write_hash; bytes_count = λ _. 16 }

pub record FileAnswer : Type 0 where
  pub hash : Hash
  pub name : ByteContainer16

unfoldable pub get_file_answer : Reader FileAnswer
get_file_answer = do
  hash ← read_hash
  name ← get_container
  pure (record { hash = hash; name = name })

unfoldable pub put_file_answer : FileAnswer → List ℕ
put_file_answer f = write_hash f.hash ++ put_container f.name

abbrev pub file_answer_format : Serializable FileAnswer
file_answer_format = record {
  get = get_file_answer;
  put = put_file_answer;
  bytes_count = λ f. 16 + (2 + length f.name);
}

pub record HashSetAnswer : Type 0 where
  pub hash : Hash
  pub parts : List Hash

unfoldable pub get_hashes : ℕ → Reader (List Hash)
get_hashes zero = pure []
get_hashes (suc n) = read_hash >>= λ h. get_hashes n >>= λ hs. pure (h ∷ hs)

unfoldable pub put_hashes : List Hash → List ℕ
put_hashes [] = []
put_hashes (h ∷ hs) = write_hash h ++ put_hashes hs

unfoldable pub get_hash_set_answer : Reader HashSetAnswer
get_hash_set_answer = do
  hash ← read_hash
  count ← read_uint16
  parts ← get_hashes count
  pure (record { hash = hash; parts = parts })

unfoldable pub put_hash_set_answer : HashSetAnswer → List ℕ
put_hash_set_answer h =
    write_hash h.hash ++ (write_uint16 (length h.parts % 65536) ++ put_hashes h.parts)

abbrev pub hash_set_answer_format : Serializable HashSetAnswer
hash_set_answer_format = record {
  get = get_hash_set_answer;
  put = put_hash_set_answer;
  bytes_count = λ h. 16 + 2 + length h.parts * 16;
}

pub record QueueRanking : Type 0 where
  pub rank : ℕ
  pub padding1 : ℕ
  pub padding2 : ℕ
  pub padding3 : ℕ

-- A number of `k` bytes if the input has so many left, and 0 if not.
abbrev get_padding : ℕ → Reader ℕ
get_padding k src = if leb k (length src) then read_le k src else ok (0, src)

unfoldable pub get_queue_ranking : Reader QueueRanking
get_queue_ranking = do
  rank ← read_uint16
  padding1 ← get_padding 4
  padding2 ← get_padding 4
  padding3 ← get_padding 2
  pure (record { rank = rank; padding1 = padding1; padding2 = padding2; padding3 = padding3 })

unfoldable pub put_queue_ranking : QueueRanking → List ℕ
put_queue_ranking q =
    write_uint16 q.rank
    ++ (write_uint32 q.padding1 ++ (write_uint32 q.padding2 ++ write_uint16 q.padding3))

abbrev pub queue_ranking_format : Serializable QueueRanking
queue_ranking_format = record {
  get = get_queue_ranking;
  put = put_queue_ranking;
  bytes_count = λ _. 12;
}

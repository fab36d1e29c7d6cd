-- ===== src/Wire/ServerMet.antt =====
-- The file of known servers: protocol/server/server_met.go. A host name and the text form of an
-- address stand on the standard library and are left out.
pub mod Faithful
use goed2k.Common.{
  ℕ, ◌+◌, ◌%◌, ◌/◌, ◌^◌, List, [], ◌∷◌, ◌++◌, length, Bool, ◌||◌, ltb, ◌==◌, if◌then◌else◌,
}
use goed2k.Wire.{Error, too_many_servers, err, Reader, ◌>>=◌, pure, Serializable}
use goed2k.Wire.Basic.{
  read_byte, read_le, write_le, Endpoint, read_endpoint, write_endpoint, read_uint32, write_byte,
  write_uint32,
}
use goed2k.Wire.Tag.{SimpleTag, get_tag_list, put_tag_list, tag_list_bytes_count}
use goed2k.Wire.Many.{get_many, put_many, total_count}

abbrev pub server_met_header : ℕ
server_met_header = 0x0E

abbrev pub server_met_header_large : ℕ
server_met_header_large = 0x0F

abbrev pub server_tag_name : ℕ
server_tag_name = 0x01

abbrev pub server_tag_description : ℕ
server_tag_description = 0x0B

abbrev pub server_met_entry_min_bytes : ℕ
server_met_entry_min_bytes = 6 + 4

pub record ServerMetEntry : Type 0 where
  pub endpoint : Endpoint
  pub tags : List SimpleTag

unfoldable pub get_server : Reader ServerMetEntry
get_server = do
  endpoint ← read_endpoint
  tags ← get_tag_list
  pure (record { endpoint = endpoint; tags = tags })

unfoldable pub put_server : ServerMetEntry → List ℕ
put_server e = write_endpoint e.endpoint ++ put_tag_list e.tags

abbrev pub server_format : Serializable ServerMetEntry
server_format = record {
  get = get_server;
  put = put_server;
  bytes_count = λ e. 6 + tag_list_bytes_count e.tags;
}

-- The first tag with the id; the empty string if there is none.
unfoldable pub tag_text : ℕ → List SimpleTag → List ℕ
tag_text id [] = []
tag_text id (t ∷ ts) = if t.id == id then t.text else tag_text id ts

unfoldable pub server_name : ServerMetEntry → List ℕ
unfolding tag_text
server_name e = tag_text server_tag_name e.tags

unfoldable pub server_description : ServerMetEntry → List ℕ
unfolding tag_text
server_description e = tag_text server_tag_description e.tags

pub record ServerMet : Type 0 where
  pub header : ℕ
  pub servers : List ServerMetEntry

-- A header that is not known is taken for the plain one, by the reader and by the writer.
unfoldable pub known_header : ℕ → ℕ
known_header header =
    if (header == server_met_header) || (header == server_met_header_large)
    then header
    else server_met_header

-- The number of servers is tested against what is left of the input, as a uint32.
unfoldable pub get_server_met : Reader ServerMet
unfolding read_byte get_many get_server known_header
get_server_met = do
  header ← read_byte
  count ← read_uint32
  servers ← λ src.
      if ltb (length src / server_met_entry_min_bytes % 2 ^ 32) count
      then err too_many_servers
      else get_many get_server count src
  pure (record { header = known_header header; servers = servers })

unfoldable pub put_server_met : ServerMet → List ℕ
unfolding put_many put_server known_header
put_server_met m =
    write_byte (known_header m.header)
    ++ (write_uint32 (length m.servers % 2 ^ 32) ++ put_many put_server m.servers)

abbrev pub server_met_format : Serializable ServerMet
server_met_format = record {
  get = get_server_met;
  put = put_server_met;
  bytes_count = λ m. 1 + 4 + total_count server_format.bytes_count m.servers;
}

unfoldable pub add_server : ServerMet → ServerMetEntry → ServerMet
add_server m entry = record m { servers = m.servers ++ (entry ∷ []) }

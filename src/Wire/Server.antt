-- ===== src/Wire/Server.antt =====
-- The packets between a client and a server: protocol/server/. The request of a search stands on
-- the text functions of the standard library and is left out.
pub mod Faithful
pub mod Sources
use goed2k.Common.{
  ℕ, ◌+◌, ◌*◌, ◌%◌, ◌/◌, ◌^◌, List, [], ◌∷◌, ◌++◌, length, Bool, true, false, ◌||◌, not, ltb, leb,
  ◌==◌, if◌then◌else◌,
}
use goed2k.Wire.{Error, too_many_servers, Result, ok, err, Reader, ◌>>=◌, pure, Serializable}
use goed2k.Wire.Basic.{
  read_byte, read_le, write_le, read_hash, write_hash, Hash, Endpoint, read_endpoint,
  write_endpoint, read_int32, read_uint16, read_uint32, write_byte, write_int32, write_uint16,
  write_uint32,
}
use goed2k.Wire.Tag.{
  SimpleTag, get_tags, get_tag_list, put_tags, put_tag_list, tags_bytes_count, tag_list_bytes_count,
}
use goed2k.Wire.Many.{get_many, put_many, total_count}

-- CallbackRequest is the int32 of a client, CallbackRequestIncoming an endpoint.
abbrev pub callback_request_format : Serializable ℕ
callback_request_format = record { get = read_int32; put = write_int32; bytes_count = λ _. 4 }

abbrev pub callback_incoming_format : Serializable Endpoint
callback_incoming_format = record {
  get = read_endpoint;
  put = write_endpoint;
  bytes_count = λ _. 6;
}

pub record Status : Type 0 where
  pub users_count : ℕ
  pub files_count : ℕ

unfoldable pub get_status : Reader Status
get_status = do
  users ← read_int32
  files ← read_int32
  pure (record { users_count = users; files_count = files })

unfoldable pub put_status : Status → List ℕ
put_status s = write_int32 s.users_count ++ write_int32 s.files_count

abbrev pub status_format : Serializable Status
status_format = record { get = get_status; put = put_status; bytes_count = λ _. 8 }

pub record IdChange : Type 0 where
  pub client_id : ℕ
  pub tcp_flags : ℕ
  pub aux_port : ℕ

-- A number if the input has four bytes left, and 0 if not.
abbrev get_optional : Reader ℕ
get_optional src = if leb 4 (length src) then read_int32 src else ok (0, src)

unfoldable pub get_id_change : Reader IdChange
get_id_change = do
  client_id ← read_int32
  tcp_flags ← get_optional
  aux_port ← get_optional
  pure (record { client_id = client_id; tcp_flags = tcp_flags; aux_port = aux_port })

unfoldable pub put_id_change : IdChange → List ℕ
put_id_change i = write_int32 i.client_id ++ (write_int32 i.tcp_flags ++ write_int32 i.aux_port)

abbrev pub id_change_format : Serializable IdChange
id_change_format = record { get = get_id_change; put = put_id_change; bytes_count = λ _. 12 }

pub record FoundFileSources : Type 0 where
  pub hash : Hash
  pub sources : List Endpoint

unfoldable pub get_found_sources : Reader FoundFileSources
unfolding read_byte get_many
get_found_sources = do
  hash ← read_hash
  count ← read_byte
  sources ← get_many read_endpoint count
  pure (record { hash = hash; sources = sources })

unfoldable pub put_found_sources : FoundFileSources → List ℕ
unfolding put_many
put_found_sources f =
    write_hash f.hash ++ (write_byte (length f.sources % 256) ++ put_many write_endpoint f.sources)

abbrev pub found_sources_format : Serializable FoundFileSources
found_sources_format = record {
  get = get_found_sources;
  put = put_found_sources;
  bytes_count = λ f. 16 + 1 + length f.sources * 6;
}

pub record GetFileSources : Type 0 where
  pub hash : Hash
  pub low_part : ℕ
  pub hi_part : ℕ

-- A first number of 0 says that both parts follow.
abbrev get_parts : ℕ → Reader (ℕ × ℕ)
get_parts val =
    if val == 0
    then (read_int32 >>= λ low. read_int32 >>= λ high. pure (low, high))
    else pure (val, 0)

unfoldable pub get_file_sources : Reader GetFileSources
get_file_sources = do
  hash ← read_hash
  val ← read_int32
  (low, high) ← get_parts val
  pure (record { hash = hash; low_part = low; hi_part = high })

unfoldable pub put_file_sources : GetFileSources → List ℕ
put_file_sources g =
    let large = not (g.hi_part == 0) in
    write_hash g.hash
    ++ ((if large then write_int32 0 else [])
        ++ (write_int32 g.low_part ++ (if large then write_int32 g.hi_part else [])))

unfoldable pub file_sources_bytes_count : GetFileSources → ℕ
file_sources_bytes_count g = if not (g.hi_part == 0) then 16 + 8 else 16 + 4

pub record LoginRequest : Type 0 where
  pub hash : Hash
  pub point : Endpoint
  pub properties : List SimpleTag

-- The number of tags is not tested against what is left of the input.
unfoldable pub get_login : Reader LoginRequest
get_login = do
  hash ← read_hash
  point ← read_endpoint
  count ← read_uint32
  properties ← get_tags count
  pure (record { hash = hash; point = point; properties = properties })

unfoldable pub put_login : LoginRequest → List ℕ
put_login l =
    write_hash l.hash
    ++ (write_endpoint l.point
        ++ (write_uint32 (length l.properties % 2 ^ 32) ++ put_tags l.properties))

abbrev pub login_format : Serializable LoginRequest
login_format = record {
  get = get_login;
  put = put_login;
  bytes_count = λ l. 16 + 6 + 4 + tags_bytes_count l.properties;
}

pub record SharedFileEntry : Type 0 where
  pub hash : Hash
  pub client_id : ℕ
  pub port : ℕ
  pub tags : List SimpleTag

unfoldable pub get_entry : Reader SharedFileEntry
get_entry = do
  hash ← read_hash
  client_id ← read_int32
  port ← read_uint16
  tags ← get_tag_list
  pure (record { hash = hash; client_id = client_id; port = port; tags = tags })

unfoldable pub put_entry : SharedFileEntry → List ℕ
put_entry s =
    write_hash s.hash ++ (write_int32 s.client_id ++ (write_uint16 s.port ++ put_tag_list s.tags))

abbrev pub entry_format : Serializable SharedFileEntry
entry_format = record {
  get = get_entry;
  put = put_entry;
  bytes_count = λ s. 16 + 4 + 2 + tag_list_bytes_count s.tags;
}

pub record SearchResult : Type 0 where
  pub results : List SharedFileEntry
  pub more_results : Bool

abbrev get_more : Reader Bool
get_more [] = ok (false, [])
get_more (x ∷ xs) = ok (not (x == 0), xs)

unfoldable pub get_search_result : Reader SearchResult
unfolding get_many get_entry
get_search_result = do
  count ← read_uint32
  results ← get_many get_entry count
  more ← get_more
  pure (record { results = results; more_results = more })

unfoldable pub put_search_result : SearchResult → List ℕ
unfolding put_many put_entry
put_search_result s =
    write_uint32 (length s.results % 2 ^ 32)
    ++ (put_many put_entry s.results ++ write_byte (if s.more_results then 1 else 0))

abbrev pub search_result_format : Serializable SearchResult
search_result_format = record {
  get = get_search_result;
  put = put_search_result;
  bytes_count = λ s. 4 + 1 + total_count entry_format.bytes_count s.results;
}

-- ===== src/Wire/Server/Faithful.antt =====
-- The packets of a server keep the promises of their formats.
use goed2k.Common.{
  ℕ, ◌*◌, ◌%◌, ◌^◌, ◌<◌, ◌≡◌, refl, if◌then◌else◌, List, [], ◌∷◌, ◌++◌, append_assoc, length,
  length-append, All, arith,
}
use goed2k.Wire.{IsFaithful, IsFaithfulBelow}
use goed2k.Wire.Basic.{write_le, read_byte, Endpoint, write_endpoint}
use goed2k.Wire.RoundTrip.{
  read_uint16-write, read_uint32-write, read_hash-write, length-write_le, read_endpoint-write,
}
use goed2k.Wire.Tag.{put_tags, put_tag_list}
use goed2k.Wire.Tag.Lists.{get_tags-put, length-put_tags, get_tag_list-put, length-put_tag_list}
use goed2k.Wire.Many.{put_many, total_count, get_many-put, get_many_below-put, length-put_many}
use goed2k.Wire.Client.Faithful.{IsEndpoint, IsTagList, length-write_endpoint}
use goed2k.Wire.Server.{
  callback_incoming_format, Status, get_status, put_status, status_format, IdChange, get_id_change,
  put_id_change, id_change_format, FoundFileSources, get_found_sources, put_found_sources,
  found_sources_format, LoginRequest, get_login, put_login, login_format, SharedFileEntry,
  get_entry, put_entry, entry_format, SearchResult, get_search_result, put_search_result,
  search_result_format,
}

pub record IsStatus (s : Status) : Type 0 where
  pub users : s.users_count < 2 ^ 32
  pub files : s.files_count < 2 ^ 32

pub record IsIdChange (i : IdChange) : Type 0 where
  pub client : i.client_id < 2 ^ 32
  pub flags : i.tcp_flags < 2 ^ 32
  pub port : i.aux_port < 2 ^ 32

pub record IsFoundSources (f : FoundFileSources) : Type 0 where
  pub hash : length f.hash ≡ 16
  pub sources : All IsEndpoint f.sources
  pub size : length f.sources < 256

pub record IsLogin (l : LoginRequest) : Type 0 where
  pub hash : length l.hash ≡ 16
  pub point : IsEndpoint l.point
  pub properties : IsTagList l.properties

pub record IsEntry (s : SharedFileEntry) : Type 0 where
  pub hash : length s.hash ≡ 16
  pub client : s.client_id < 2 ^ 32
  pub port : s.port < 65536
  pub tags : IsTagList s.tags

pub record IsSearchResult (s : SearchResult) : Type 0 where
  pub results : All IsEntry s.results
  pub size : length s.results < 2 ^ 32

pub callback_incoming_format-IsFaithful : IsFaithful callback_incoming_format IsEndpoint
callback_incoming_format-IsFaithful = record {
  round_trip = λ e rest v. read_endpoint-write e rest v.ip v.port;
  sized = λ e v. length-write_endpoint e;
}

status_format-IsFaithful : IsFaithful status_format IsStatus
unfolding get_status put_status write_le
status_format-IsFaithful = record {
  round_trip = λ s rest v. ground (
    arith,
    append_assoc (write_le 4 s.users_count) (write_le 4 s.files_count) rest,
    read_uint32-write s.users_count (write_le 4 s.files_count ++ rest) v.users,
    read_uint32-write s.files_count rest v.files,
  );
  sized = λ s v. refl;
}

id_change_format-IsFaithful : IsFaithful id_change_format IsIdChange
unfolding get_id_change put_id_change write_le
id_change_format-IsFaithful = record {
  round_trip = λ i rest v.
      let a = write_le 4 i.client_id in
      let b = write_le 4 i.tcp_flags in
      let c = write_le 4 i.aux_port in
      ground (
        arith,
        append_assoc a (b ++ c) rest,
        append_assoc b c rest,
        length-append b (c ++ rest),
        length-append c rest,
        length-write_le 4 i.tcp_flags,
        length-write_le 4 i.aux_port,
        read_uint32-write i.client_id ((b ++ c) ++ rest) v.client,
        read_uint32-write i.tcp_flags (c ++ rest) v.flags,
        read_uint32-write i.aux_port rest v.port,
      );
  sized = λ i v. refl;
}

endpoints_count : (es : List Endpoint) → total_count (λ (e : Endpoint). 6) es ≡ length es * 6
unfolding total_count
endpoints_count [] = refl
endpoints_count (e ∷ es) = omega (arith, endpoints_count es)

found_sources_format-IsFaithful : IsFaithful found_sources_format IsFoundSources
unfolding get_found_sources put_found_sources read_byte
found_sources_format-IsFaithful = record {
  round_trip = λ f rest v.
      let es = put_many write_endpoint f.sources in
      ground (
        arith,
        v.size,
        append_assoc f.hash ((length f.sources % 256) ∷ es) rest,
        read_hash-write f.hash (((length f.sources % 256) ∷ es) ++ rest) v.hash,
        get_many-put callback_incoming_format IsEndpoint callback_incoming_format-IsFaithful
            f.sources rest v.sources,
      );
  sized = λ f v.
      let es = put_many write_endpoint f.sources in
      omega (
        arith,
        v.hash,
        length-append f.hash ((length f.sources % 256) ∷ es),
        length-put_many callback_incoming_format IsEndpoint
            callback_incoming_format-IsFaithful.sized f.sources v.sources,
        endpoints_count f.sources,
      );
}

login_format-IsFaithful : IsFaithful login_format IsLogin
unfolding get_login put_login
login_format-IsFaithful = record {
  round_trip = λ l rest v.
      let p = write_endpoint l.point in
      let n = write_le 4 (length l.properties) in
      let t = put_tags l.properties in
      ground (
        arith,
        v.properties.size,
        append_assoc l.hash (p ++ (n ++ t)) rest,
        append_assoc p (n ++ t) rest,
        append_assoc n t rest,
        read_hash-write l.hash ((p ++ (n ++ t)) ++ rest) v.hash,
        read_endpoint-write l.point ((n ++ t) ++ rest) v.point.ip v.point.port,
        read_uint32-write (length l.properties) (t ++ rest) v.properties.size,
        get_tags-put l.properties rest v.properties.tags,
      );
  sized = λ l v.
      let p = write_endpoint l.point in
      let n = write_le 4 (length l.properties % 2 ^ 32) in
      let t = put_tags l.properties in
      omega (
        arith,
        v.hash,
        length-append l.hash (p ++ (n ++ t)),
        length-append p (n ++ t),
        length-append n t,
        length-write_endpoint l.point,
        length-write_le 4 (length l.properties % 2 ^ 32),
        length-put_tags l.properties v.properties.tags,
      );
}

entry_format-IsFaithful : IsFaithfulBelow (2 ^ 33) entry_format IsEntry
unfolding get_entry put_entry
entry_format-IsFaithful = record {
  round_trip = λ s rest v below.
      let a = write_le 4 s.client_id in
      let b = write_le 2 s.port in
      let t = put_tag_list s.tags in
      ground (
        arith,
        append_assoc s.hash (a ++ (b ++ t)) rest,
        append_assoc a (b ++ t) rest,
        append_assoc b t rest,
        read_hash-write s.hash ((a ++ (b ++ t)) ++ rest) v.hash,
        read_uint32-write s.client_id ((b ++ t) ++ rest) v.client,
        read_uint16-write s.port (t ++ rest) v.port,
        get_tag_list-put s.tags rest v.tags.tags v.tags.size (
            omega (
              arith,
              below,
              length-append (s.hash ++ (a ++ (b ++ t))) rest,
              length-append s.hash (a ++ (b ++ t)),
              length-append a (b ++ t),
              length-append b t,
              length-append t rest,
            )),
      );
  sized = λ s v.
      let a = write_le 4 s.client_id in
      let b = write_le 2 s.port in
      let t = put_tag_list s.tags in
      omega (
        arith,
        v.hash,
        length-append s.hash (a ++ (b ++ t)),
        length-append a (b ++ t),
        length-append b t,
        length-write_le 4 s.client_id,
        length-write_le 2 s.port,
        length-put_tag_list s.tags v.tags.tags,
      );
}

search_result_format-IsFaithful : IsFaithfulBelow (2 ^ 33) search_result_format IsSearchResult
unfolding get_search_result put_search_result
search_result_format-IsFaithful = record {
  round_trip = λ s rest v below.
      let n = write_le 4 (length s.results) in
      let es = put_many put_entry s.results in
      let flag : List ℕ = (if s.more_results then 1 else 0) ∷ [] in
      let n' = write_le 4 (length s.results % 2 ^ 32) in
      let fits : length (es ++ (flag ++ rest)) < 2 ^ 33 = omega (
        arith,
        below,
        length-append (n' ++ (es ++ flag)) rest,
        length-append n' (es ++ flag),
        length-append es flag,
        length-append es (flag ++ rest),
        length-append flag rest,
      ) in
      ground (
        arith,
        v.size,
        append_assoc n (es ++ flag) rest,
        append_assoc es flag rest,
        read_uint32-write (length s.results) ((es ++ flag) ++ rest) v.size,
        get_many_below-put (2 ^ 33) entry_format IsEntry entry_format-IsFaithful s.results
            (flag ++ rest) v.results fits,
      );
  sized = λ s v.
      let n = write_le 4 (length s.results % 2 ^ 32) in
      let es = put_many put_entry s.results in
      let flag : List ℕ = (if s.more_results then 1 else 0) ∷ [] in
      omega (
        arith,
        length-append n (es ++ flag),
        length-append es flag,
        length-write_le 4 (length s.results % 2 ^ 32),
        length-put_many entry_format IsEntry entry_format-IsFaithful.sized s.results v.results,
      );
}

-- LoginRequest, FoundFileSources of fewer than 256 sources, SearchResult, IdChange and Status,
-- with fields in range and valid tags, are read back by Get as Put wrote them, what follows is
-- left, and BytesCount is the number of bytes that Put writes; the reading of SearchResult,
-- whose entries hold lists of tags, is for inputs of fewer than 2^33 bytes.
pub server_packets-IsFaithful :
    IsFaithful login_format IsLogin
    × IsFaithful found_sources_format IsFoundSources
    × IsFaithfulBelow (2 ^ 33) search_result_format IsSearchResult
    × IsFaithful id_change_format IsIdChange
    × IsFaithful status_format IsStatus
server_packets-IsFaithful = (
  login_format-IsFaithful, found_sources_format-IsFaithful, search_result_format-IsFaithful,
  id_change_format-IsFaithful, status_format-IsFaithful,
)

-- ===== src/Kad/Publish.antt =====
-- The packets that search and publish: those of protocol/kad/types.go, and the rest of packets.go.
pub mod Faithful
use goed2k.Common.{ℕ, ◌+◌, ◌%◌, List, [], ◌∷◌, ◌++◌, length}
use goed2k.Wire.{Result, ok, err, Reader, ◌>>=◌, pure}
use goed2k.Wire.Basic.{read_byte, read_uint16, read_uint64, write_byte, write_uint16, write_uint64}
use goed2k.Wire.Many.{get_many}
use goed2k.Kad.{KadId}
use goed2k.Kad.Format.{
  Written, ◌<+>◌, write_many, KadFormat, packet_format, get_id, put_id, SearchEntry,
  get_search_entry, put_search_entry,
}

pub record SearchSourcesReq : Type 0 where
  pub target : KadId
  pub start_pos : ℕ
  pub size : ℕ

unfoldable pub get_search_sources : Reader SearchSourcesReq
get_search_sources = do
  target ← get_id
  start_pos ← read_uint16
  size ← read_uint64
  pure (record { target = target; start_pos = start_pos; size = size })

unfoldable pub put_search_sources : SearchSourcesReq → Written
put_search_sources s =
    ok (put_id s.target) <+> ok (write_uint16 s.start_pos) <+> ok (write_uint64 s.size)

abbrev pub search_sources_format : KadFormat SearchSourcesReq
search_sources_format = packet_format 0x34 get_search_sources put_search_sources

pub record SearchRes : Type 0 where
  pub source : KadId
  pub target : KadId
  pub results : List SearchEntry

unfoldable pub get_search_res : Reader SearchRes
get_search_res = do
  source ← get_id
  target ← get_id
  count ← read_uint16
  results ← get_many get_search_entry count
  pure (record { source = source; target = target; results = results })

unfoldable pub put_search_res : SearchRes → Written
unfolding write_many
put_search_res s =
    ok (put_id s.source)
    <+> ok (put_id s.target)
    <+> ok (write_uint16 (length s.results % 65536))
    <+> write_many put_search_entry s.results

abbrev pub search_res_format : KadFormat SearchRes
search_res_format = packet_format 0x3b get_search_res put_search_res

pub record SearchKeysReq : Type 0 where
  pub target : KadId
  pub start_pos : ℕ

unfoldable pub get_search_keys : Reader SearchKeysReq
get_search_keys = do
  target ← get_id
  start_pos ← read_uint16
  pure (record { target = target; start_pos = start_pos })

unfoldable pub put_search_keys : SearchKeysReq → Written
put_search_keys s = ok (put_id s.target) <+> ok (write_uint16 s.start_pos)

abbrev pub search_keys_format : KadFormat SearchKeysReq
search_keys_format = packet_format 0x33 get_search_keys put_search_keys

pub record SearchNotesReq : Type 0 where
  pub target : KadId
  pub file_size : ℕ

unfoldable pub get_search_notes : Reader SearchNotesReq
get_search_notes = do
  target ← get_id
  file_size ← read_uint64
  pure (record { target = target; file_size = file_size })

unfoldable pub put_search_notes : SearchNotesReq → Written
put_search_notes s = ok (put_id s.target) <+> ok (write_uint64 s.file_size)

abbrev pub search_notes_format : KadFormat SearchNotesReq
search_notes_format = packet_format 0x35 get_search_notes put_search_notes

pub record PublishSourcesReq : Type 0 where
  pub file_id : KadId
  pub source : SearchEntry

unfoldable pub get_publish_sources : Reader PublishSourcesReq
get_publish_sources = do
  file_id ← get_id
  source ← get_search_entry
  pure (record { file_id = file_id; source = source })

unfoldable pub put_publish_sources : PublishSourcesReq → Written
put_publish_sources p = ok (put_id p.file_id) <+> put_search_entry p.source

abbrev pub publish_sources_format : KadFormat PublishSourcesReq
publish_sources_format = packet_format 0x44 get_publish_sources put_publish_sources

-- PublishRes, and PublishNotesRes with another operation.
pub record PublishRes : Type 0 where
  pub file_id : KadId
  pub count : ℕ

unfoldable pub get_publish_res : Reader PublishRes
unfolding read_byte
get_publish_res = do
  file_id ← get_id
  count ← read_byte
  pure (record { file_id = file_id; count = count })

unfoldable pub put_publish_res : PublishRes → Written
put_publish_res p = ok (put_id p.file_id) <+> ok (write_byte p.count)

abbrev pub publish_res_format : KadFormat PublishRes
publish_res_format = packet_format 0x4b get_publish_res put_publish_res

abbrev pub publish_notes_res_format : KadFormat PublishRes
publish_notes_res_format = packet_format 0x4a get_publish_res put_publish_res

pub record PublishKeysReq : Type 0 where
  pub keyword_id : KadId
  pub sources : List SearchEntry

unfoldable pub get_publish_keys : Reader PublishKeysReq
get_publish_keys = do
  keyword_id ← get_id
  count ← read_uint16
  sources ← get_many get_search_entry count
  pure (record { keyword_id = keyword_id; sources = sources })

unfoldable pub put_publish_keys : PublishKeysReq → Written
unfolding write_many
put_publish_keys p =
    ok (put_id p.keyword_id)
    <+> ok (write_uint16 (length p.sources % 65536))
    <+> write_many put_search_entry p.sources

abbrev pub publish_keys_format : KadFormat PublishKeysReq
publish_keys_format = packet_format 0x43 get_publish_keys put_publish_keys

pub record PublishNotesReq : Type 0 where
  pub file_id : KadId
  pub notes : List SearchEntry

unfoldable pub get_publish_notes : Reader PublishNotesReq
get_publish_notes = do
  file_id ← get_id
  count ← read_uint16
  notes ← get_many get_search_entry count
  pure (record { file_id = file_id; notes = notes })

unfoldable pub put_publish_notes : PublishNotesReq → Written
unfolding write_many
put_publish_notes p =
    ok (put_id p.file_id)
    <+> ok (write_uint16 (length p.notes % 65536))
    <+> write_many put_search_entry p.notes

abbrev pub publish_notes_format : KadFormat PublishNotesReq
publish_notes_format = packet_format 0x45 get_publish_notes put_publish_notes

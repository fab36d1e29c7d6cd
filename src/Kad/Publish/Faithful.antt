-- ===== src/Kad/Publish/Faithful.antt =====
-- The packets that search and publish are unpacked as they were packed.
use goed2k.Common.{
  ℕ, ◌%◌, ◌^◌, ◌<◌, ◌≡◌, refl, List, [], ◌∷◌, ◌++◌, append_assoc, length, All, arith,
}
use goed2k.Wire.{ok, Reader, ◌>>=◌, pure}
use goed2k.Wire.Basic.{write_le, read_le, read_byte}
use goed2k.Wire.RoundTrip.{read_uint16-write, read_uint64-write}
use goed2k.Wire.Many.{get_many}
use goed2k.Kad.{KadId}
use goed2k.Kad.Format.{
  ◌<+>◌, write_many, get_id, put_id, SearchEntry, get_search_entry, put_search_entry,
}
use goed2k.Kad.Format.RoundTrip.{
  Reads, get_id-put, many-Reads, IsSearchEntry, get_search_entry-Reads, IsPacket, Reads-IsPacket,
}
use goed2k.Kad.Publish.{
  SearchSourcesReq, get_search_sources, put_search_sources, search_sources_format, SearchRes,
  get_search_res, put_search_res, search_res_format, SearchKeysReq, get_search_keys,
  put_search_keys, search_keys_format, SearchNotesReq, get_search_notes, put_search_notes,
  search_notes_format, PublishSourcesReq, get_publish_sources, put_publish_sources,
  publish_sources_format, get_publish_res, put_publish_res, publish_res_format,
  publish_notes_res_format, PublishKeysReq, get_publish_keys, put_publish_keys, publish_keys_format,
  PublishNotesReq, get_publish_notes, put_publish_notes, publish_notes_format,
}

pub record IsSearchSources (s : SearchSourcesReq) : Type 0 where
  pub target : length s.target ≡ 16
  pub start_pos : s.start_pos < 65536
  pub size : s.size < 2 ^ 64

get_search_sources-Reads : Reads get_search_sources put_search_sources IsSearchSources
unfolding get_search_sources put_search_sources
get_search_sources-Reads s v =
    let i = put_id s.target in
    let a = write_le 2 s.start_pos in
    let b = write_le 8 s.size in
    (
      i ++ (a ++ b),
      refl,
      λ rest. ground (
        arith,
        append_assoc i (a ++ b) rest,
        append_assoc a b rest,
        get_id-put s.target ((a ++ b) ++ rest) v.target,
        read_uint16-write s.start_pos (b ++ rest) v.start_pos,
        read_uint64-write s.size rest v.size,
      ),
    )

pub record IsSearchRes (s : SearchRes) : Type 0 where
  pub source : length s.source ≡ 16
  pub target : length s.target ≡ 16
  pub results : All IsSearchEntry s.results
  pub size : length s.results < 65536

abbrev keyed : Reader (KadId × List SearchEntry)
keyed = do i ← get_id; n ← read_le 2; es ← get_many get_search_entry n; pure (i, es)

-- A list of search entries and its 16-bit number, behind an identifier.
entries_bytes :
    (i : KadId) (es : List SearchEntry)
    → length i ≡ 16
    → All IsSearchEntry es
    → length es < 65536
    → (bytes : List ℕ) × ((ok (put_id i)
          <+> ok (write_le 2 (length es % 65536))
          <+> write_many put_search_entry es)
        ≡ ok bytes)
      × ((rest : List ℕ) → keyed (bytes ++ rest) ≡ ok ((i, es), rest))
entries_bytes i es h a l =
    let (b, p, r) =
      many-Reads get_search_entry put_search_entry IsSearchEntry get_search_entry-Reads es a in
    let n = write_le 2 (length es) in
    (
      put_id i ++ (n ++ b),
      ground (arith, p, l),
      λ rest. ground (
        arith,
        append_assoc (put_id i) (n ++ b) rest,
        append_assoc n b rest,
        get_id-put i ((n ++ b) ++ rest) h,
        read_uint16-write (length es) (b ++ rest) l,
        r rest,
      ),
    )

get_search_res-Reads : Reads get_search_res put_search_res IsSearchRes
unfolding get_search_res put_search_res
get_search_res-Reads s v =
    let (b, p, r) =
      many-Reads get_search_entry put_search_entry IsSearchEntry get_search_entry-Reads s.results
        v.results in
    let i = put_id s.source in
    let t = put_id s.target in
    let n = write_le 2 (length s.results) in
    (
      i ++ (t ++ (n ++ b)),
      ground (arith, p, v.size),
      λ rest. ground (
        arith,
        append_assoc i (t ++ (n ++ b)) rest,
        append_assoc t (n ++ b) rest,
        append_assoc n b rest,
        get_id-put s.source ((t ++ (n ++ b)) ++ rest) v.source,
        get_id-put s.target ((n ++ b) ++ rest) v.target,
        read_uint16-write (length s.results) (b ++ rest) v.size,
        r rest,
      ),
    )

pub record IsSearchKeys (s : SearchKeysReq) : Type 0 where
  pub target : length s.target ≡ 16
  pub start_pos : s.start_pos < 65536

get_search_keys-Reads : Reads get_search_keys put_search_keys IsSearchKeys
unfolding get_search_keys put_search_keys
get_search_keys-Reads s v =
    let i = put_id s.target in
    let a = write_le 2 s.start_pos in
    (
      i ++ a,
      refl,
      λ rest. ground (
        arith,
        append_assoc i a rest,
        get_id-put s.target (a ++ rest) v.target,
        read_uint16-write s.start_pos rest v.start_pos,
      ),
    )

pub record IsSearchNotes (s : SearchNotesReq) : Type 0 where
  pub target : length s.target ≡ 16
  pub file_size : s.file_size < 2 ^ 64

get_search_notes-Reads : Reads get_search_notes put_search_notes IsSearchNotes
unfolding get_search_notes put_search_notes
get_search_notes-Reads s v =
    let i = put_id s.target in
    let a = write_le 8 s.file_size in
    (
      i ++ a,
      refl,
      λ rest. ground (
        arith,
        append_assoc i a rest,
        get_id-put s.target (a ++ rest) v.target,
        read_uint64-write s.file_size rest v.file_size,
      ),
    )

pub record IsPublishSources (p : PublishSourcesReq) : Type 0 where
  pub file_id : length p.file_id ≡ 16
  pub source : IsSearchEntry p.source

get_publish_sources-Reads : Reads get_publish_sources put_publish_sources IsPublishSources
unfolding get_publish_sources put_publish_sources
get_publish_sources-Reads q v =
    let (b, p, r) = get_search_entry-Reads q.source v.source in
    let i = put_id q.file_id in
    (
      i ++ b,
      ground (arith, p),
      λ rest.
          ground (arith, append_assoc i b rest, get_id-put q.file_id (b ++ rest) v.file_id, r rest),
    )

publish_res-Reads : Reads get_publish_res put_publish_res (λ p. length p.file_id ≡ 16)
unfolding get_publish_res put_publish_res read_byte
publish_res-Reads q v =
    let i = put_id q.file_id in
    (
      i ++ (q.count ∷ []),
      refl,
      λ rest. ground (
        arith,
        append_assoc i (q.count ∷ []) rest,
        get_id-put q.file_id ((q.count ∷ []) ++ rest) v,
      ),
    )

pub record IsPublishKeys (p : PublishKeysReq) : Type 0 where
  pub keyword_id : length p.keyword_id ≡ 16
  pub sources : All IsSearchEntry p.sources
  pub size : length p.sources < 65536

get_publish_keys-Reads : Reads get_publish_keys put_publish_keys IsPublishKeys
unfolding get_publish_keys put_publish_keys
get_publish_keys-Reads q v =
    let (b, p, r) = entries_bytes q.keyword_id q.sources v.keyword_id v.sources v.size in
    (b, p, λ rest. ground (arith, r rest))

pub record IsPublishNotes (p : PublishNotesReq) : Type 0 where
  pub file_id : length p.file_id ≡ 16
  pub notes : All IsSearchEntry p.notes
  pub size : length p.notes < 65536

get_publish_notes-Reads : Reads get_publish_notes put_publish_notes IsPublishNotes
unfolding get_publish_notes put_publish_notes
get_publish_notes-Reads q v =
    let (b, p, r) = entries_bytes q.file_id q.notes v.file_id v.notes v.size in
    (b, p, λ rest. ground (arith, r rest))

-- Each KAD packet that searches or publishes, and each result, is packed to bytes that decode to
-- its operation and unpack, whatever follows, to the same packet, for values that fit their
-- fields.
pub publish_packets-IsPacket :
    IsPacket search_sources_format IsSearchSources
    × IsPacket search_res_format IsSearchRes
    × IsPacket search_keys_format IsSearchKeys
    × IsPacket search_notes_format IsSearchNotes
    × IsPacket publish_sources_format IsPublishSources
    × IsPacket publish_res_format (λ p. length p.file_id ≡ 16)
    × IsPacket publish_notes_res_format (λ p. length p.file_id ≡ 16)
    × IsPacket publish_keys_format IsPublishKeys
    × IsPacket publish_notes_format IsPublishNotes
publish_packets-IsPacket = (
  Reads-IsPacket 0x34 get_search_sources put_search_sources IsSearchSources
      get_search_sources-Reads,
  Reads-IsPacket 0x3b get_search_res put_search_res IsSearchRes get_search_res-Reads,
  Reads-IsPacket 0x33 get_search_keys put_search_keys IsSearchKeys get_search_keys-Reads,
  Reads-IsPacket 0x35 get_search_notes put_search_notes IsSearchNotes get_search_notes-Reads,
  Reads-IsPacket 0x44 get_publish_sources put_publish_sources IsPublishSources
      get_publish_sources-Reads,
  Reads-IsPacket 0x4b get_publish_res put_publish_res (λ p. length p.file_id ≡ 16)
      publish_res-Reads,
  Reads-IsPacket 0x4a get_publish_res put_publish_res (λ p. length p.file_id ≡ 16)
      publish_res-Reads,
  Reads-IsPacket 0x43 get_publish_keys put_publish_keys IsPublishKeys get_publish_keys-Reads,
  Reads-IsPacket 0x45 get_publish_notes put_publish_notes IsPublishNotes get_publish_notes-Reads,
)

-- ===== src/Kad/Format/RoundTrip.antt =====
-- The parts of KAD packets are read back as they were written.
use Prim.Native.Nat.{bit_and, bit_or}
use goed2k.Common.{
  all_below, all_below_lem, ℕ, zero, suc, ◌+◌, ◌-◌, ◌*◌, ◌^◌, ◌<◌, ◌≤◌, ◌≡◌, refl, sym, ap, ◌∙◌,
  List, [], ◌∷◌, ◌++◌, append_assoc, length, true, false, ◌&&◌, not, ◌==◌, All, arith,
}
use goed2k.Wire.{ok, Reader}
use goed2k.Wire.Basic.{write_le, read_byte, read_bytes}
use goed2k.Wire.RoundTrip.{
  read_uint16-write, read_uint32-write, read_uint64-write, read_bytes-write,
}
use goed2k.Wire.Many.{get_many}
use goed2k.Kad.{KadId}
use goed2k.Kad.Format.{
  Written, write_many, KadFormat, packet_format, value_of, swap_words, get_id, put_id, KadEndpoint,
  get_kad_endpoint, put_kad_endpoint, Entry, get_contact, put_contact, KadTag, get_value,
  get_kad_tag, put_kad_value, put_kad_tag, SearchEntry, get_search_entry, put_search_entry,
  tag_string, tag_uint8, tag_uint16, tag_uint32, tag_uint64, tag_str1, decode_packet, encode_packet,
}

-- Values of a kind are written, and read back from what was written and whatever follows it.
abbrev pub Reads : {A : Type 0} → Reader A → (A → Written) → (A → Type 0) → Type 0
Reads {A} get put IsValid =
    (v : A)
    → IsValid v
    → (bytes : List ℕ) × (put v ≡ ok bytes) × ((rest : List ℕ) → get (bytes ++ rest) ≡ ok (v, rest))

swap_words-twice :
    (a b c d : ℕ) (xs ys : List ℕ)
    → swap_words (swap_words xs) ≡ ys
    → swap_words (swap_words (a ∷ b ∷ c ∷ d ∷ xs)) ≡ a ∷ b ∷ c ∷ d ∷ ys
unfolding swap_words
swap_words-twice a b c d xs ys e = rw e

-- A list of whole words.
pub swap_words-words :
    (n : ℕ) (xs : List ℕ)
    → length xs ≡ 4 * n
    → (swap_words (swap_words xs) ≡ xs) × (length (swap_words xs) ≡ 4 * n)
unfolding swap_words
swap_words-words zero [] h = (refl, omega arith)
swap_words-words zero (a ∷ xs) h = absurd (omega (arith, h))
swap_words-words (suc n) [] h = absurd (omega (arith, h))
swap_words-words (suc n) (a ∷ []) h = absurd (omega (arith, h))
swap_words-words (suc n) (a ∷ b ∷ []) h = absurd (omega (arith, h))
swap_words-words (suc n) (a ∷ b ∷ c ∷ []) h = absurd (omega (arith, h))
swap_words-words (suc n) (a ∷ b ∷ c ∷ d ∷ xs) h =
    let (e, l) = swap_words-words n xs (omega (arith, h)) in
    (swap_words-twice a b c d xs xs e, omega (arith, l))

pub get_id-put :
    (i : KadId) (rest : List ℕ) → length i ≡ 16 → get_id (put_id i ++ rest) ≡ ok (i, rest)
unfolding get_id put_id
get_id-put i rest h =
    let (e, l) = swap_words-words 4 i h in
    let whole : read_bytes 16 (swap_words i ++ rest) ≡ ok (swap_words i, rest) =
      ap (λ n. read_bytes n (swap_words i ++ rest)) (sym l)
      ∙ read_bytes-write (swap_words i) rest in
    rw (whole, e) refl

pub record IsKadEndpoint (e : KadEndpoint) : Type 0 where
  pub ip : e.ip < 2 ^ 32
  pub udp_port : e.udp_port < 65536
  pub tcp_port : e.tcp_port < 65536

get_kad_endpoint-put :
    (e : KadEndpoint) (rest : List ℕ)
    → IsKadEndpoint e
    → get_kad_endpoint (put_kad_endpoint e ++ rest) ≡ ok (e, rest)
unfolding get_kad_endpoint put_kad_endpoint
get_kad_endpoint-put e rest v =
    let a = write_le 4 e.ip in
    let b = write_le 2 e.udp_port in
    let c = write_le 2 e.tcp_port in
    ground (
      arith,
      append_assoc a (b ++ c) rest,
      append_assoc b c rest,
      read_uint32-write e.ip ((b ++ c) ++ rest) v.ip,
      read_uint16-write e.udp_port (c ++ rest) v.udp_port,
      read_uint16-write e.tcp_port rest v.tcp_port,
    )

-- A contact in a packet says nothing of its verification.
pub record IsEntry (e : Entry) : Type 0 where
  pub id : length e.id ≡ 16
  pub endpoint : IsKadEndpoint e.endpoint
  pub plain : e.verified ≡ false

pub get_contact-put :
    (e : Entry) (rest : List ℕ) → IsEntry e → get_contact (put_contact e ++ rest) ≡ ok (e, rest)
unfolding get_contact put_contact read_byte
get_contact-put e rest v =
    let a = put_id e.id in
    let b = put_kad_endpoint e.endpoint in
    ground (
      arith,
      v.plain,
      append_assoc a (b ++ (e.version ∷ [])) rest,
      append_assoc b (e.version ∷ []) rest,
      get_id-put e.id ((b ++ (e.version ∷ [])) ++ rest) v.id,
      get_kad_endpoint-put e.endpoint ((e.version ∷ []) ++ rest) v.endpoint,
    )

-- The top bit of the first byte says that a one-byte identifier follows.
flag_table :
    all_below 128
      (λ t. (bit_and (bit_or t 0x80) 0x7f == t) && not (bit_and (bit_or t 0x80) 0x80 == 0))
    ≡ true
unfolding all_below
flag_table = refl

flag_lem :
    (t : ℕ)
    → t < 128
    → (bit_and (bit_or t 0x80) 0x7f ≡ t) × ((bit_and (bit_or t 0x80) 0x80 == 0) ≡ false)
flag_lem t h = ground (
  arith,
  all_below_lem 128
      (λ t. (bit_and (bit_or t 0x80) 0x7f == t) && not (bit_and (bit_or t 0x80) 0x80 == 0)) t
      flag_table h,
)

-- The fields that a tag of each kind uses, and their bounds.
pub data IsKadTag (t : KadTag) : Type 0 where
  byte_tag : t.type ≡ tag_uint8 → t.uint64 < 256 → t.string ≡ [] → IsKadTag t
  short_tag : t.type ≡ tag_uint16 → t.uint64 < 65536 → t.string ≡ [] → IsKadTag t
  word_tag : t.type ≡ tag_uint32 → t.uint64 < 2 ^ 32 → t.string ≡ [] → IsKadTag t
  long_tag : t.type ≡ tag_uint64 → t.uint64 < 2 ^ 64 → t.string ≡ [] → IsKadTag t
  string_tag : t.type ≡ tag_string → length t.string < 65536 → t.uint64 ≡ 0 → IsKadTag t
  str_tag :
      t.type + 1 ≡ tag_str1 + length t.string
      → 0 < length t.string
      → length t.string ≤ 16
      → t.uint64 ≡ 0
      → IsKadTag t

IsKadTag-lt : (t : KadTag) → IsKadTag t → t.type < 128
IsKadTag-lt t (byte_tag e b s) = omega (arith, e)
IsKadTag-lt t (short_tag e b s) = omega (arith, e)
IsKadTag-lt t (word_tag e b s) = omega (arith, e)
IsKadTag-lt t (long_tag e b s) = omega (arith, e)
IsKadTag-lt t (string_tag e b s) = omega (arith, e)
IsKadTag-lt t (str_tag e b c s) = omega (arith, e)

ReadsValue : KadTag → Type 0
ReadsValue t =
    (bytes : List ℕ) × (put_kad_value t ≡ ok bytes)
    × ((rest : List ℕ) → get_value t.type (bytes ++ rest) ≡ ok ((t.uint64, t.string), rest))

value-Reads : (t : KadTag) → IsKadTag t → ReadsValue t
unfolding ReadsValue put_kad_value get_value read_byte
value-Reads t (byte_tag e b s) = (t.uint64 ∷ [], ground (arith, e), λ rest. ground (arith, e, s))
value-Reads t (short_tag e b s) = (
  write_le 2 t.uint64,
  ground (arith, e),
  λ rest. ground (arith, e, s, read_uint16-write t.uint64 rest b),
)
value-Reads t (word_tag e b s) = (
  write_le 4 t.uint64,
  ground (arith, e),
  λ rest. ground (arith, e, s, read_uint32-write t.uint64 rest b),
)
value-Reads t (long_tag e b s) = (
  write_le 8 t.uint64,
  ground (arith, e),
  λ rest. ground (arith, e, s, read_uint64-write t.uint64 rest b),
)
value-Reads t (string_tag e b u) =
    let n = length t.string in
    (
      write_le 2 n ++ t.string,
      ground (arith, e),
      λ rest. ground (
        arith,
        e,
        u,
        append_assoc (write_le 2 n) t.string rest,
        read_uint16-write n (t.string ++ rest) b,
        read_bytes-write t.string rest,
      ),
    )
value-Reads t (str_tag e b c u) =
    let size : t.type - tag_str1 + 1 ≡ length t.string = omega (arith, e) in
    (
      t.string,
      ground (arith, e),
      λ rest. ground (
        arith,
        e,
        u,
        ap (λ n. read_bytes n (t.string ++ rest)) size,
        read_bytes-write t.string rest,
      ),
    )

pub tag-Reads : Reads get_kad_tag put_kad_tag IsKadTag
unfolding get_kad_tag put_kad_tag read_byte ReadsValue
tag-Reads t v =
    let (bytes, p, r) = value-Reads t v in
    let (low, flag) = flag_lem t.type (IsKadTag-lt t v) in
    (
      bit_or t.type 0x80 ∷ t.id ∷ bytes,
      rw p refl,
      λ rest. ground (arith, low, flag, ap (λ k. get_value k (bytes ++ rest)) low, r rest),
    )

module _ {A : Type 0} (get : Reader A) (put : A → Written) (IsValid : A → Type 0)
    (reads : Reads get put IsValid) where
  pub many-Reads :
      (vs : List A)
      → All IsValid vs
      → (bytes : List ℕ) × (write_many put vs ≡ ok bytes)
        × ((rest : List ℕ) → get_many get (length vs) (bytes ++ rest) ≡ ok (vs, rest))
  unfolding write_many get_many
  many-Reads [] h = ([], refl, λ rest. refl)
  many-Reads (v ∷ vs) h =
      let (a, p, r) = reads v h.0 in
      let (b, q, s) = many-Reads vs h.1 in
      (a ++ b, rw (p, q) refl, λ rest. rw (append_assoc a b rest, r (b ++ rest), s rest) refl)

pub record IsSearchEntry (s : SearchEntry) : Type 0 where
  pub id : length s.id ≡ 16
  pub tags : All IsKadTag s.tags
  pub size : length s.tags < 256

pub get_search_entry-Reads : Reads get_search_entry put_search_entry IsSearchEntry
unfolding get_search_entry put_search_entry read_byte
get_search_entry-Reads s v =
    let (b, p, r) = many-Reads get_kad_tag put_kad_tag IsKadTag tag-Reads s.tags v.tags in
    let i = put_id s.id in
    let n = length s.tags in
    (
      i ++ (n ∷ b),
      ground (arith, p, v.size),
      λ rest.
          ground
            (arith, append_assoc i (n ∷ b) rest, get_id-put s.id ((n ∷ b) ++ rest) v.id, r rest),
    )

-- What is packed is decoded to its operation and payload, and the payload is unpacked, whatever
-- follows it.
pub record IsPacket {A : Type 0} (f : KadFormat A) (IsValid : A → Type 0) : Type 0 where
  pub round_trip :
      (v : A)
      → IsValid v
      → (packet payload : List ℕ) × (f.pack v ≡ ok packet)
        × (decode_packet packet ≡ ok (f.opcode, payload))
        × ((rest : List ℕ) → f.unpack (payload ++ rest) ≡ ok v)

pub Reads-IsPacket :
    {A : Type 0} (opcode : ℕ) (get : Reader A) (put : A → Written) (IsValid : A → Type 0)
    → Reads get put IsValid
    → IsPacket (packet_format opcode get put) IsValid
unfolding encode_packet decode_packet
Reads-IsPacket opcode get put IsValid reads = record {
  round_trip = λ v h.
      let (payload, p, r) = reads v h in
      (0xe4 ∷ opcode ∷ payload, payload, rw p refl, refl, λ rest. ap value_of (r rest));
}

-- ===== src/Kad/Format.antt =====
-- The parts of KAD packets: protocol/kad/types.go, and encodePacket of packets.go. A write gives the
-- bytes, or the error of an unsupported tag.
pub mod RoundTrip
use Prim.Native.Nat.{bit_and, bit_or}
use goed2k.Common.{
  ℕ, zero, suc, ◌+◌, ◌-◌, ◌*◌, ◌/◌, ◌%◌, ◌^◌, List, [], ◌∷◌, ◌++◌, length, Bool, true, false, ◌&&◌,
  ◌||◌, not, ltb, leb, ◌==◌, if◌then◌else◌, Option, none, some,
}
use goed2k.Wire.{
  Error, eof, unsupported_tag, bad_packet, Result, ok, err, Reader, ◌>>=◌, pure, fail,
}
use goed2k.Wire.Basic.{
  read_byte, read_bytes, read_uint16, read_uint32, read_uint64, write_byte, write_uint16,
  write_uint32, write_uint64, Endpoint,
}
use goed2k.Wire.Many.{get_many}
use goed2k.Kad.{KadId}

abbrev pub Written : Type 0
Written = Result (List ℕ)

-- One write after another, up to the first that fails.
infixr 64 ◌<+>◌
abbrev pub ◌<+>◌ : Written → Written → Written
ok a <+> ok b = ok (a ++ b)
ok a <+> err e = err e
err e <+> w = err e

unfoldable pub write_many : {A : Type 0} → (A → Written) → List A → Written
write_many put [] = ok []
write_many put (a ∷ as') = put a <+> write_many put as'

-- What an `Unpack` makes of a payload: what is left over is ignored.
abbrev pub value_of : {A : Type 0} → Result (A × List ℕ) → Result A
value_of (ok (a, rest)) = ok a
value_of (err e) = err e

-- A packet has an operation code, and is packed with and unpacked without its two header bytes.
pub record KadFormat (A : Type 0) : Type 0 where
  pub opcode : ℕ
  pub pack : A → Written
  pub unpack : List ℕ → Result A

abbrev pub protocol_header : ℕ
protocol_header = 0xe4

unfoldable pub encode_packet : ℕ → Written → Written
encode_packet opcode (ok payload) = ok (protocol_header ∷ opcode ∷ payload)
encode_packet opcode (err e) = err e

unfoldable pub decode_packet : List ℕ → Result (ℕ × List ℕ)
decode_packet [] = err bad_packet
decode_packet (h ∷ []) = err bad_packet
decode_packet (h ∷ opcode ∷ payload) =
    if h == protocol_header then ok (opcode, payload) else err bad_packet

-- The four bytes of each word in the other order.
unfoldable pub swap_words : List ℕ → List ℕ
swap_words (a ∷ b ∷ c ∷ d ∷ xs) = d ∷ c ∷ b ∷ a ∷ swap_words xs
swap_words _ = []

unfoldable pub get_id : Reader KadId
unfolding swap_words read_bytes
get_id = read_bytes 16 >>= λ raw. pure (swap_words raw)

unfoldable pub put_id : KadId → List ℕ
unfolding swap_words
put_id i = swap_words i

pub record KadEndpoint : Type 0 where
  pub ip : ℕ
  pub udp_port : ℕ
  pub tcp_port : ℕ

unfoldable pub get_kad_endpoint : Reader KadEndpoint
get_kad_endpoint = do
  ip ← read_uint32
  udp ← read_uint16
  tcp ← read_uint16
  pure (record { ip = ip; udp_port = udp; tcp_port = tcp })

unfoldable pub put_kad_endpoint : KadEndpoint → List ℕ
put_kad_endpoint e = write_uint32 e.ip ++ (write_uint16 e.udp_port ++ write_uint16 e.tcp_port)

unfoldable pub ed2k : KadEndpoint → Endpoint
ed2k e = record { ip = e.ip; port = e.tcp_port }

pub record Entry : Type 0 where
  pub id : KadId
  pub endpoint : KadEndpoint
  pub version : ℕ
  pub verified : Bool

unfoldable pub get_contact : Reader Entry
unfolding get_id get_kad_endpoint read_byte
get_contact = do
  id ← get_id
  endpoint ← get_kad_endpoint
  version ← read_byte
  pure (record { id = id; endpoint = endpoint; version = version; verified = false })

unfoldable pub put_contact : Entry → List ℕ
unfolding put_id put_kad_endpoint
put_contact e = put_id e.id ++ (put_kad_endpoint e.endpoint ++ write_byte e.version)

pub record KadTag : Type 0 where
  pub type : ℕ
  pub id : ℕ
  pub uint64 : ℕ
  pub string : List ℕ

abbrev number : Reader ℕ → Reader (ℕ × List ℕ)
number read = read >>= λ v. pure (v, [])

abbrev text : ℕ → Reader (ℕ × List ℕ)
text size = read_bytes size >>= λ s. pure (0, s)

abbrev pub tag_string : ℕ
tag_string = 0x02

abbrev pub tag_uint32 : ℕ
tag_uint32 = 0x03

abbrev pub tag_uint16 : ℕ
tag_uint16 = 0x08

abbrev pub tag_uint8 : ℕ
tag_uint8 = 0x09

abbrev pub tag_uint64 : ℕ
tag_uint64 = 0x0b

abbrev pub tag_str1 : ℕ
tag_str1 = 0x11

-- The number and the text of a tag of a type: one of them stays empty.
unfoldable pub get_value : ℕ → Reader (ℕ × List ℕ)
get_value type =
    if type == tag_uint8
    then number read_byte
    else (if type == tag_uint16
        then number read_uint16
        else (if type == tag_uint32
            then number read_uint32
            else (if type == tag_uint64
                then number read_uint64
                else (if type == tag_string
                    then (read_uint16 >>= text)
                    else (if leb tag_str1 type && leb type (tag_str1 + 15)
                        then text (type - tag_str1 + 1)
                        else fail unsupported_tag)))))

unfoldable pub get_kad_tag : Reader KadTag
unfolding get_value read_byte
get_kad_tag = do
  first ← read_byte
  if bit_and first 0x80 == 0 then fail unsupported_tag else do
    id ← read_byte
    (n, s) ← get_value (bit_and first 0x7f)
    pure (record { type = bit_and first 0x7f; id = id; uint64 = n; string = s })

unfoldable pub put_kad_value : KadTag → Written
put_kad_value t =
    if t.type == tag_uint8
    then ok (write_byte (t.uint64 % 256))
    else (if t.type == tag_uint16
        then ok (write_uint16 (t.uint64 % 65536))
        else (if t.type == tag_uint32
            then ok (write_uint32 (t.uint64 % 2 ^ 32))
            else (if t.type == tag_uint64
                then ok (write_uint64 t.uint64)
                else (if t.type == tag_string
                    then ok (write_uint16 (length t.string % 65536) ++ t.string)
                    else (if leb tag_str1 t.type && leb t.type (tag_str1 + 15)
                        then ok t.string
                        else err unsupported_tag)))))

unfoldable pub put_kad_tag : KadTag → Written
unfolding put_kad_value
put_kad_tag t = ok (bit_or t.type 0x80 ∷ t.id ∷ []) <+> put_kad_value t

pub record SearchEntry : Type 0 where
  pub id : KadId
  pub tags : List KadTag

unfoldable pub get_search_entry : Reader SearchEntry
unfolding get_id read_byte get_kad_tag get_many
get_search_entry = do
  id ← get_id
  count ← read_byte
  tags ← get_many get_kad_tag count
  pure (record { id = id; tags = tags })

unfoldable pub put_search_entry : SearchEntry → Written
unfolding put_id put_kad_tag write_many
put_search_entry s =
    ok (put_id s.id) <+> ok (write_byte (length s.tags % 256)) <+> write_many put_kad_tag s.tags

-- The first tag with the id.
unfoldable pub find_tag : ℕ → List KadTag → Option KadTag
find_tag id [] = none
find_tag id (t ∷ ts) = let rest = find_tag id ts in if t.id == id then some t else rest

abbrev uint_of : Option KadTag → Option ℕ
uint_of none = none
uint_of (some t) = some t.uint64

unfoldable pub uint_tag : SearchEntry → ℕ → Option ℕ
unfolding find_tag
uint_tag s id = uint_of (find_tag id s.tags)

abbrev string_of : Option KadTag → Option (List ℕ)
string_of none = none
string_of (some t) = some t.string

unfoldable pub string_tag : SearchEntry → ℕ → Option (List ℕ)
unfolding find_tag
string_tag s id = string_of (find_tag id s.tags)

abbrev known_type : Option ℕ → Bool
known_type none = true
known_type (some t) = t == 1 || (t == 4 || t == 0)

-- The address and the port of a source, of a kind that can be connected to. The port is the bit
-- pattern of an int, of which a tag can set all 64 bits.
unfoldable pub source_endpoint : SearchEntry → Option Endpoint
unfolding uint_tag
source_endpoint s = elim (uint_tag s 0xfe) [
  | none ↦ none
  | some ip ↦ elim (uint_tag s 0xfd) [
    | none ↦ none
    | some port ↦
        if known_type (uint_tag s 0xff)
        then some (record { ip = ip % 2 ^ 32; port = port })
        else none
  ]
]

abbrev pub packet_format : {A : Type 0} → ℕ → Reader A → (A → Written) → KadFormat A
packet_format opcode get put = record {
  opcode = opcode;
  pack = λ v. encode_packet opcode (put v);
  unpack = λ payload. value_of (get payload);
}

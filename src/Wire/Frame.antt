-- ===== src/Wire/Frame.antt =====
-- Frames of packets: protocol/packet_combiner.go. `P` is the type of all packets that the combiner
-- knows, and `inflate` is compress/zlib: the bytes of a compressed body, or an error.
pub mod RoundTrip
use goed2k.Common.{
  ℕ, ◌+◌, ◌-◌, ◌%◌, ◌^◌, List, [], ◌∷◌, ◌++◌, length, Bool, ◌&&◌, ◌||◌, ltb, leb, ◌==◌,
  if◌then◌else◌, Option, none, some,
}
use goed2k.Wire.{Error, not_registered, Result, ok, err, Reader, Serializable}
use goed2k.Wire.Basic.{read_bytes}
use goed2k.Wire.Header.{
  PacketKey, PacketHeader, reset_with_key, get_header, put_header, packet_header_size, size_packet,
  header_key, packed_prot, emule_prot, edonkey_header, kad_compressed_udp,
}

abbrev pub keys_equal : PacketKey → PacketKey → Bool
keys_equal p q = (p.protocol == q.protocol) && (p.packet == q.packet)

-- A type name is the number that stands for it. The latest entry for a key is in front.
pub record PacketCombiner (P : Type 0) : Type 0 where
  pub key_to_packet : List (PacketKey × Reader P)
  pub type_to_key : List (ℕ × PacketKey)
  pub reusable : PacketHeader
  pub service : Option (PacketHeader → ℕ)

unfoldable pub new_packet_combiner : {P : Type 0} → PacketCombiner P
new_packet_combiner = record {
  key_to_packet = [];
  type_to_key = [];
  reusable = record { protocol = 0; size = 0; packet = 0 };
  service = none;
}

unfoldable pub register :
    {P : Type 0} → PacketCombiner P → PacketKey → ℕ → Reader P → PacketCombiner P
register c key type_name factory = record c {
  key_to_packet = (key, factory) ∷ c.key_to_packet;
  type_to_key = (type_name, key) ∷ c.type_to_key;
}

unfoldable pub set_service_sizer :
    {P : Type 0} → PacketCombiner P → (PacketHeader → ℕ) → PacketCombiner P
set_service_sizer c f = record c { service = some f }

unfoldable pub find_packet : {A : Type 0} → PacketKey → List (PacketKey × A) → Option A
find_packet key [] = none
find_packet key ((k, a) ∷ rest) = if keys_equal k key then some a else find_packet key rest

unfoldable pub find_key : ℕ → List (ℕ × PacketKey) → Option PacketKey
find_key name [] = none
find_key name ((n, k) ∷ rest) = if n == name then some k else find_key name rest

-- The value of a read that is over; what is left of the input is dropped.
abbrev finished : {A : Type 0} → Result (A × List ℕ) → Result A
finished (ok (a, rest)) = ok a
finished (err e) = err e

module _ {P : Type 0} (without_data : P) (inflate : List ℕ → Result (List ℕ)) where
  -- A packet of no registered key is a WithoutDataPacket, which reads nothing.
  abbrev read_packet : Option (Reader P) → List ℕ → Result P
  read_packet none body = ok without_data
  read_packet (some get) body = finished (get body)

  abbrev pub key_of : PacketKey → Option (Reader P) → ℕ → PacketKey
  key_of key (some get) packet = record { protocol = emule_prot; packet = packet }
  key_of key none packet = record { protocol = edonkey_header; packet = packet }

  -- A compressed packet of a client is looked up as eMule's first, then as eDonkey's.
  unfoldable pub unpacked_key : PacketCombiner P → PacketHeader → PacketKey
  unfolding find_packet
  unpacked_key c header =
      let emule : PacketKey = record { protocol = emule_prot; packet = header.packet } in
      if header.protocol == packed_prot
      then key_of (header_key header) (find_packet emule c.key_to_packet) header.packet
      else header_key header

  abbrev pub read_body : PacketCombiner P → PacketKey → Result (List ℕ) → Result P
  read_body c key (ok body) = read_packet (find_packet key c.key_to_packet) body
  read_body c key (err e) = err e

  unfoldable pub unpack : PacketCombiner P → PacketHeader → List ℕ → Result P
  unfolding unpacked_key header_key
  unpack c header src =
      if (header.protocol == packed_prot) || (header.protocol == kad_compressed_udp)
      then read_body c (unpacked_key c header) (inflate src)
      else read_body c (header_key header) (ok src)

  abbrev with_header : PacketHeader → Result P → Result (PacketHeader × P)
  with_header header (ok packet) = ok (header, packet)
  with_header header (err e) = err e

  abbrev read_rest :
      PacketCombiner P → PacketHeader → Result (List ℕ × List ℕ) → Result (PacketHeader × P)
  read_rest c header (ok (body, rest)) = with_header header (unpack c header body)
  read_rest c header (err e) = err e

  -- The size of a slice must not be negative: `make` panics for a `size_packet` of 2^31 or more.
  abbrev read_frame :
      PacketCombiner P → Result (PacketHeader × List ℕ) → Option (Result (PacketHeader × P))
  read_frame c (err e) = some (err e)
  read_frame c (ok (header, rest)) =
      if leb (2 ^ 31) (size_packet header)
      then none
      else some (read_rest c header (read_bytes (size_packet header) rest))

  unfoldable pub unpack_frame : PacketCombiner P → List ℕ → Option (Result (PacketHeader × P))
  unfolding unpack
  unpack_frame c frame = read_frame c (get_header frame)

unfoldable pub service_size : {P : Type 0} → PacketCombiner P → PacketHeader → ℕ
unfolding size_packet
service_size c header = elim c.service [ none ↦ size_packet header | some f ↦ f header ]

abbrev frame_header : PacketHeader → PacketKey → ℕ → PacketHeader
frame_header header key size = reset_with_key header key (size % 2 ^ 32)

-- The bytes of the header, the packet and the payload, and the number of those before the payload.
unfoldable pub pack_payload :
    {P : Type 0} → PacketCombiner P → ℕ → (P → List ℕ) → P → List ℕ → Result (List ℕ × ℕ)
unfolding find_key reset_with_key put_header
pack_payload c type_name put object payload = elim (find_key type_name c.type_to_key) [
  | none ↦ err not_registered
  | some key ↦
      let body = put object in
      ok (
        put_header (frame_header c.reusable key (length body + length payload + 1))
            ++ (body ++ payload),
        packet_header_size + length body,
      )
]

abbrev frame_only : Result (List ℕ × ℕ) → Result (List ℕ)
frame_only (ok (raw, n)) = ok raw
frame_only (err e) = err e

unfoldable pub pack : {P : Type 0} → PacketCombiner P → ℕ → (P → List ℕ) → P → Result (List ℕ)
unfolding pack_payload
pack c type_name put object = frame_only (pack_payload c type_name put object [])

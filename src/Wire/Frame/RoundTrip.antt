-- ===== src/Wire/Frame/RoundTrip.antt =====
-- A frame that was packed is unpacked to its header and its packet.
use goed2k.Common.{
  ℕ, ◌+◌, ◌^◌, ◌<◌, ◌≡◌, ◌≢◌, sym, ap, ◌∙◌, List, [], ◌++◌, append_assoc, append-nil, length, some,
  arith,
}
use goed2k.Wire.{Result, ok, Reader, Serializable, IsFaithful}
use goed2k.Wire.RoundTrip.{read_bytes-write}
use goed2k.Wire.Header.{
  PacketKey, PacketHeader, reset_with_key, put_header, packet_header_size, size_packet, header_key,
  packed_prot, kad_compressed_udp, header-IsFaithful,
}
use goed2k.Wire.Frame.{PacketCombiner, find_packet, find_key, unpack, unpack_frame, pack_payload}

-- The header of a frame with a body of so many bytes.
abbrev pub sized_header : PacketKey → ℕ → PacketHeader
sized_header key size = record { protocol = key.protocol; size = size + 1; packet = key.packet }

-- What `PackPayload` writes.
pub pack_payload_lem :
    {P : Type 0} (c : PacketCombiner P) (name : ℕ) (key : PacketKey) (put : P → List ℕ) (v : P)
    (payload : List ℕ)
    → find_key name c.type_to_key ≡ some key
    → length (put v) + length payload + 1 < 2 ^ 32
    → pack_payload c name put v payload
      ≡ ok (
        put_header (sized_header key (length (put v) + length payload)) ++ (put v ++ payload),
        packet_header_size + length (put v),
      )
unfolding pack_payload reset_with_key
pack_payload_lem c name key put v payload found fits = ground (arith, found, fits)

module _ {P : Type 0} (without_data : P) (inflate : List ℕ → Result (List ℕ)) where
  unpack_plain :
      (c : PacketCombiner P) (header : PacketHeader) (get : Reader P) (body rest : List ℕ) (v : P)
      → header.protocol ≢ packed_prot
      → header.protocol ≢ kad_compressed_udp
      → find_packet (header_key header) c.key_to_packet ≡ some get
      → get body ≡ ok (v, rest)
      → unpack without_data inflate c header body ≡ ok v
  unfolding unpack
  unpack_plain c header get body rest v a b found read = ground (arith, found, read)

  -- For a faithful format whose key is registered, and is not one of a compressed protocol, and
  -- a valid packet of fewer than 2^31 bytes, PackPayload with no payload succeeds and tells the
  -- length of header and packet; UnpackFrame of what it wrote gives the header and the packet
  -- back, whatever follows the frame.
  pub unpack_frame-pack_payload :
      (c : PacketCombiner P) (name : ℕ) (key : PacketKey) (s : Serializable P)
      (IsValid : P → Type 0) (v : P) (rest : List ℕ)
      → IsFaithful s IsValid
      → find_key name c.type_to_key ≡ some key
      → find_packet key c.key_to_packet ≡ some s.get
      → key.protocol ≢ packed_prot
      → key.protocol ≢ kad_compressed_udp
      → IsValid v
      → length (s.put v) < 2 ^ 31
      → (raw : List ℕ) × (pack_payload c name s.put v []
          ≡ ok (raw, packet_header_size + s.bytes_count v))
        × (unpack_frame without_data inflate c (raw ++ rest)
            ≡ some (ok (sized_header key (s.bytes_count v), v)))
  unfolding unpack_frame size_packet header_key
  unpack_frame-pack_payload c name key s IsValid v rest f named found a b w small =
      let h = sized_header key (length (s.put v)) in
      let raw = put_header h ++ (s.put v ++ []) in
      let whole : s.get (s.put v) ≡ ok (v, []) =
        ap s.get (sym (append-nil (s.put v))) ∙ f.round_trip v [] w in
      let packed : pack_payload c name s.put v [] ≡ ok (raw, packet_header_size + s.bytes_count v) =
        ground (arith, pack_payload_lem c name key s.put v [] named, f.sized v w) in
      let read : unpack_frame without_data inflate c (raw ++ rest) ≡ some (ok (h, v)) = ground (
        arith,
        append_assoc (put_header h) (s.put v ++ []) rest,
        append-nil (s.put v),
        header-IsFaithful.round_trip h (s.put v ++ rest) (omega arith),
        read_bytes-write (s.put v) rest,
        unpack_plain c h s.get (s.put v) [] v a b found whole,
      ) in
      (raw, packed, read ∙ ap (λ (n : ℕ). some (ok (sized_header key n, v))) (f.sized v w))

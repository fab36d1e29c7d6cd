-- ===== src/Wire/Header.antt =====
-- Packet headers and byte strings with a length: protocol/packet_header.go, protocol/packet_key.go
-- and protocol/byte_container.go. The int32 size is its bit pattern.
use goed2k.Common.{
  ℕ, ◌+◌, ◌-◌, ◌%◌, ◌^◌, ◌<◌, ◌≤◌, List, [], ◌∷◌, ◌++◌, append_assoc, length, length-append, Bool,
  ◌&&◌, not, ltb, ◌==◌, if◌then◌else◌, arith,
}
use goed2k.Common.Int.{ℤ, pos, negsuc}
use goed2k.Wire.{buffer_too_large, Reader, ◌>>=◌, pure, fail, Serializable, IsFaithful}
use goed2k.Wire.Basic.{
  read_byte, write_le, read_bytes, read_int32, read_uint16, write_byte, write_int32, write_uint16,
}
use goed2k.Wire.RoundTrip.{read_uint16-write, read_uint32-write, read_bytes-write, length-write_le}

abbrev pub op_undefined : ℕ
op_undefined = 0x00

abbrev pub edonkey_header : ℕ
edonkey_header = 0xE3

abbrev pub packed_prot : ℕ
packed_prot = 0xD4

abbrev pub emule_prot : ℕ
emule_prot = 0xC5

abbrev pub kad_compressed_udp : ℕ
kad_compressed_udp = 0xE5

abbrev pub kademlia_header : ℕ
kademlia_header = 0xE4

pub record PacketKey : Type 0 where
  pub protocol : ℕ
  pub packet : ℕ

-- Packed protocols compare by the packet alone.
unfoldable pub compare_keys : PacketKey → PacketKey → ℤ
compare_keys p other =
    let by_packet =
      if ltb other.packet p.packet
      then pos 1
      else (if ltb p.packet other.packet then negsuc 0 else pos 0) in
    if not (other.protocol == packed_prot)
      && (not (p.protocol == packed_prot)
          && (not (other.protocol == kad_compressed_udp) && not (p.protocol == kad_compressed_udp)))
    then (if ltb other.protocol p.protocol
        then pos 1
        else (if ltb p.protocol other.protocol then negsuc 0 else by_packet))
    else by_packet

unfoldable pub normalized_protocol : PacketKey → ℕ
normalized_protocol p =
    if p.protocol == edonkey_header
    then packed_prot
    else (if p.protocol == emule_prot
        then packed_prot
        else (if p.protocol == kademlia_header then kad_compressed_udp else p.protocol))

pub record PacketHeader : Type 0 where
  pub protocol : ℕ
  pub size : ℕ
  pub packet : ℕ

unfoldable pub is_defined : PacketHeader → Bool
is_defined p = not (p.protocol == op_undefined) && not (p.packet == op_undefined)

unfoldable pub reset_with_key : PacketHeader → PacketKey → ℕ → PacketHeader
reset_with_key p key size = record p { protocol = key.protocol; size = size; packet = key.packet }

unfoldable pub get_header : Reader PacketHeader
unfolding read_byte
get_header = do
  protocol ← read_byte
  size ← read_int32
  packet ← read_byte
  pure (record { protocol = protocol; size = size; packet = packet })

unfoldable pub put_header : PacketHeader → List ℕ
put_header p = write_byte p.protocol ++ (write_int32 p.size ++ write_byte p.packet)

abbrev pub packet_header_size : ℕ
packet_header_size = 6

abbrev pub header_format : Serializable PacketHeader
header_format = record { get = get_header; put = put_header; bytes_count = λ _. packet_header_size }

-- `p.Size - 1` on an int32.
unfoldable pub size_packet : PacketHeader → ℕ
size_packet p = (p.size + 2 ^ 32 - 1) % 2 ^ 32

unfoldable pub header_key : PacketHeader → PacketKey
header_key p = record { protocol = p.protocol; packet = p.packet }

-- A packet header whose size fits 32 bits is read back by Get as Put wrote it, what follows is
-- left, and BytesCount is the number of bytes that Put writes.
pub header-IsFaithful : IsFaithful header_format (λ p. p.size < 2 ^ 32)
unfolding get_header put_header read_byte
header-IsFaithful = record {
  round_trip = λ p rest h. ground (
    arith,
    append_assoc (write_le 4 p.size) (p.packet ∷ []) rest,
    read_uint32-write p.size (p.packet ∷ rest) h,
  );
  sized = λ p h.
      ground (arith, length-append (write_le 4 p.size) (p.packet ∷ []), length-write_le 4 p.size);
}

abbrev pub ByteContainer16 : Type 0
ByteContainer16 = List ℕ

unfoldable pub get_container : Reader ByteContainer16
get_container =
    read_uint16 >>= λ size. if ltb 4096 size then fail buffer_too_large else read_bytes size

unfoldable pub put_container : ByteContainer16 → List ℕ
put_container b = write_uint16 (length b % 65536) ++ b

abbrev pub container_format : Serializable ByteContainer16
container_format = record {
  get = get_container;
  put = put_container;
  bytes_count = λ b. 2 + length b;
}

-- A byte string of at most 4096 bytes is read back by Get as Put wrote it, what follows is left,
-- and BytesCount is the number of bytes that Put writes.
pub container-IsFaithful : IsFaithful container_format (λ b. length b ≤ 4096)
unfolding get_container put_container
container-IsFaithful = record {
  round_trip = λ b rest h. ground (
    arith,
    append_assoc (write_le 2 (length b)) b rest,
    read_uint16-write (length b) (b ++ rest) (omega arith),
    read_bytes-write b rest,
  );
  sized =
      λ b h. ground (arith, length-append (write_le 2 (length b)) b, length-write_le 2 (length b));
}

-- A packet header whose size fits 32 bits, and a byte string of at most 4096 bytes, are read
-- back by Get as Put wrote them, what follows is left, and BytesCount is the number of bytes
-- that Put writes.
pub header_and_container-IsFaithful :
    IsFaithful header_format (λ p. p.size < 2 ^ 32)
    × IsFaithful container_format (λ b. length b ≤ 4096)
header_and_container-IsFaithful = (header-IsFaithful, container-IsFaithful)

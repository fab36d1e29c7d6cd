-- ===== src/Kad/Packets.antt =====
-- The packets between KAD nodes: the handshakes, the lookups and the firewall checks of
-- protocol/kad/packets.go.
pub mod Faithful
use goed2k.Common.{ℕ, ◌+◌, ◌%◌, List, [], ◌∷◌, ◌++◌, length, ◌==◌, if◌then◌else◌}
use goed2k.Wire.{Result, ok, err, Reader, ◌>>=◌, pure}
use goed2k.Wire.Basic.{read_byte, read_uint16, read_uint32, write_byte, write_uint16, write_uint32}
use goed2k.Wire.Many.{get_many}
use goed2k.Kad.{KadId}
use goed2k.Kad.Format.{
  Written, ◌<+>◌, write_many, KadFormat, packet_format, encode_packet, get_id, put_id, Entry,
  get_contact, put_contact, KadTag, get_kad_tag, put_kad_tag,
}

-- A packet with no payload.
unfoldable pub pack_empty : ℕ → Written
unfolding encode_packet
pack_empty opcode = encode_packet opcode (ok [])

abbrev pub bootstrap_req_op : ℕ
bootstrap_req_op = 0x01

abbrev pub ping_op : ℕ
ping_op = 0x60

abbrev pub pack_bootstrap_req : Written
pack_bootstrap_req = pack_empty bootstrap_req_op

abbrev pub pack_ping : Written
pack_ping = pack_empty ping_op

pub record BootstrapRes : Type 0 where
  pub id : KadId
  pub tcp_port : ℕ
  pub version : ℕ
  pub contacts : List Entry

unfoldable pub get_bootstrap_res : Reader BootstrapRes
unfolding read_byte
get_bootstrap_res = do
  id ← get_id
  port ← read_uint16
  version ← read_byte
  count ← read_uint16
  contacts ← get_many get_contact count
  pure (record { id = id; tcp_port = port; version = version; contacts = contacts })

abbrev pub contact_written : Entry → Written
contact_written e = ok (put_contact e)

unfoldable pub put_bootstrap_res : BootstrapRes → Written
unfolding write_many
put_bootstrap_res b =
    ok (put_id b.id)
    <+> ok (write_uint16 b.tcp_port)
    <+> ok (write_byte b.version)
    <+> ok (write_uint16 (length b.contacts % 65536))
    <+> write_many contact_written b.contacts

abbrev pub bootstrap_res_format : KadFormat BootstrapRes
bootstrap_res_format = packet_format 0x09 get_bootstrap_res put_bootstrap_res

pub record Hello : Type 0 where
  pub id : KadId
  pub tcp_port : ℕ
  pub version : ℕ
  pub tags : List KadTag

unfoldable pub get_hello : Reader Hello
unfolding read_byte
get_hello = do
  id ← get_id
  port ← read_uint16
  version ← read_byte
  count ← read_byte
  tags ← get_many get_kad_tag count
  pure (record { id = id; tcp_port = port; version = version; tags = tags })

abbrev pub kademlia_version : ℕ
kademlia_version = 0x05

-- A version of 0 is written as the own version.
unfoldable pub put_hello : Hello → Written
unfolding write_many
put_hello h =
    ok (put_id h.id)
    <+> ok (write_uint16 h.tcp_port)
    <+> ok (write_byte (if h.version == 0 then kademlia_version else h.version))
    <+> ok (write_byte (length h.tags % 256))
    <+> write_many put_kad_tag h.tags

-- The operation is that of a request or of an answer.
abbrev pub hello_format : ℕ → KadFormat Hello
hello_format opcode = packet_format opcode get_hello put_hello

pub record Req : Type 0 where
  pub search_type : ℕ
  pub target : KadId
  pub receiver : KadId

unfoldable pub get_req : Reader Req
unfolding read_byte
get_req = do
  op ← read_byte
  target ← get_id
  receiver ← get_id
  pure (record { search_type = op; target = target; receiver = receiver })

unfoldable pub put_req : Req → Written
put_req r = ok (write_byte r.search_type) <+> ok (put_id r.target) <+> ok (put_id r.receiver)

abbrev pub req_format : KadFormat Req
req_format = packet_format 0x21 get_req put_req

pub record Res : Type 0 where
  pub target : KadId
  pub results : List Entry

unfoldable pub get_res : Reader Res
unfolding read_byte
get_res = do
  target ← get_id
  count ← read_byte
  results ← get_many get_contact count
  pure (record { target = target; results = results })

unfoldable pub put_res : Res → Written
unfolding write_many
put_res r =
    ok (put_id r.target)
    <+> ok (write_byte (length r.results % 256))
    <+> write_many contact_written r.results

abbrev pub res_format : KadFormat Res
res_format = packet_format 0x29 get_res put_res

-- The port of a Pong and of an old firewall check.
unfoldable pub put_port : ℕ → Written
put_port port = ok (write_uint16 port)

abbrev pub pong_format : KadFormat ℕ
pong_format = packet_format 0x61 read_uint16 put_port

abbrev pub legacy_firewalled_req_format : KadFormat ℕ
legacy_firewalled_req_format = packet_format 0x50 read_uint16 put_port

pub record FirewalledReq : Type 0 where
  pub tcp_port : ℕ
  pub id : KadId
  pub options : ℕ

unfoldable pub get_firewalled_req : Reader FirewalledReq
unfolding read_byte
get_firewalled_req = do
  port ← read_uint16
  id ← get_id
  options ← read_byte
  pure (record { tcp_port = port; id = id; options = options })

unfoldable pub put_firewalled_req : FirewalledReq → Written
put_firewalled_req f =
    ok (write_uint16 f.tcp_port) <+> ok (put_id f.id) <+> ok (write_byte f.options)

abbrev pub firewalled_req_format : KadFormat FirewalledReq
firewalled_req_format = packet_format 0x53 get_firewalled_req put_firewalled_req

unfoldable pub put_firewalled_res : ℕ → Written
put_firewalled_res ip = ok (write_uint32 ip)

abbrev pub firewalled_res_format : KadFormat ℕ
firewalled_res_format = packet_format 0x58 read_uint32 put_firewalled_res

pub record FirewalledUdp : Type 0 where
  pub error_code : ℕ
  pub tcp_port : ℕ

unfoldable pub get_firewalled_udp : Reader FirewalledUdp
unfolding read_byte
get_firewalled_udp = do
  code ← read_byte
  port ← read_uint16
  pure (record { error_code = code; tcp_port = port })

unfoldable pub put_firewalled_udp : FirewalledUdp → Written
put_firewalled_udp f = ok (write_byte f.error_code) <+> ok (write_uint16 f.tcp_port)

abbrev pub firewalled_udp_format : KadFormat FirewalledUdp
firewalled_udp_format = packet_format 0x62 get_firewalled_udp put_firewalled_udp

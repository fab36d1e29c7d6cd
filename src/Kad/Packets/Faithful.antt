-- ===== src/Kad/Packets/Faithful.antt =====
-- The packets between nodes are unpacked as they were packed.
use goed2k.Common.{ℕ, ◌^◌, ◌<◌, ◌≡◌, ◌≢◌, refl, [], ◌∷◌, ◌++◌, append_assoc, length, All, arith}
use goed2k.Wire.Basic.{write_le, read_byte, read_uint16, read_uint32}
use goed2k.Wire.RoundTrip.{read_uint16-write, read_uint32-write}
use goed2k.Kad.Format.{put_id, get_contact, put_contact, get_kad_tag, put_kad_tag}
use goed2k.Kad.Format.RoundTrip.{
  Reads, get_id-put, IsEntry, get_contact-put, IsKadTag, tag-Reads, many-Reads, IsPacket,
  Reads-IsPacket,
}
use goed2k.Kad.Packets.{
  BootstrapRes, get_bootstrap_res, contact_written, put_bootstrap_res, bootstrap_res_format, Hello,
  get_hello, put_hello, hello_format, Req, get_req, put_req, req_format, Res, get_res, put_res,
  res_format, put_port, pong_format, legacy_firewalled_req_format, FirewalledReq,
  get_firewalled_req, put_firewalled_req, firewalled_req_format, put_firewalled_res,
  firewalled_res_format, get_firewalled_udp, put_firewalled_udp, firewalled_udp_format,
}

contact-Reads : Reads get_contact contact_written IsEntry
contact-Reads e v = (put_contact e, refl, λ rest. get_contact-put e rest v)

pub record IsBootstrapRes (b : BootstrapRes) : Type 0 where
  pub id : length b.id ≡ 16
  pub tcp_port : b.tcp_port < 65536
  pub contacts : All IsEntry b.contacts
  pub size : length b.contacts < 65536

get_bootstrap_res-Reads : Reads get_bootstrap_res put_bootstrap_res IsBootstrapRes
unfolding get_bootstrap_res put_bootstrap_res read_byte
get_bootstrap_res-Reads b v =
    let (cs, p, r) =
      many-Reads get_contact contact_written IsEntry contact-Reads b.contacts v.contacts in
    let i = put_id b.id in
    let a = write_le 2 b.tcp_port in
    let n = write_le 2 (length b.contacts) in
    let tail = b.version ∷ (n ++ cs) in
    (
      i ++ (a ++ tail),
      ground (arith, p, v.size),
      λ rest. ground (
        arith,
        append_assoc i (a ++ tail) rest,
        append_assoc a tail rest,
        append_assoc n cs rest,
        get_id-put b.id ((a ++ tail) ++ rest) v.id,
        read_uint16-write b.tcp_port (tail ++ rest) v.tcp_port,
        read_uint16-write (length b.contacts) (cs ++ rest) v.size,
        r rest,
      ),
    )

-- A version of 0 would be read back as the own one.
pub record IsHello (h : Hello) : Type 0 where
  pub id : length h.id ≡ 16
  pub tcp_port : h.tcp_port < 65536
  pub version : h.version ≢ 0
  pub tags : All IsKadTag h.tags
  pub size : length h.tags < 256

get_hello-Reads : Reads get_hello put_hello IsHello
unfolding get_hello put_hello read_byte
get_hello-Reads h v =
    let (ts, p, r) = many-Reads get_kad_tag put_kad_tag IsKadTag tag-Reads h.tags v.tags in
    let i = put_id h.id in
    let a = write_le 2 h.tcp_port in
    let tail = h.version ∷ length h.tags ∷ ts in
    (
      i ++ (a ++ tail),
      ground (arith, p, v.size, v.version),
      λ rest. ground (
        arith,
        append_assoc i (a ++ tail) rest,
        append_assoc a tail rest,
        get_id-put h.id ((a ++ tail) ++ rest) v.id,
        read_uint16-write h.tcp_port (tail ++ rest) v.tcp_port,
        r rest,
      ),
    )

pub record IsReq (r : Req) : Type 0 where
  pub target : length r.target ≡ 16
  pub receiver : length r.receiver ≡ 16

get_req-Reads : Reads get_req put_req IsReq
unfolding get_req put_req read_byte
get_req-Reads q v =
    let a = put_id q.target in
    let b = put_id q.receiver in
    (
      q.search_type ∷ (a ++ b),
      refl,
      λ rest. ground (
        arith,
        append_assoc a b rest,
        get_id-put q.target (b ++ rest) v.target,
        get_id-put q.receiver rest v.receiver,
      ),
    )

pub record IsRes (r : Res) : Type 0 where
  pub target : length r.target ≡ 16
  pub results : All IsEntry r.results
  pub size : length r.results < 256

get_res-Reads : Reads get_res put_res IsRes
unfolding get_res put_res read_byte
get_res-Reads q v =
    let (cs, p, r) =
      many-Reads get_contact contact_written IsEntry contact-Reads q.results v.results in
    let a = put_id q.target in
    let tail = length q.results ∷ cs in
    (
      a ++ tail,
      ground (arith, p, v.size),
      λ rest.
          ground
            (arith, append_assoc a tail rest, get_id-put q.target (tail ++ rest) v.target, r rest),
    )

port-Reads : Reads read_uint16 put_port (λ p. p < 65536)
unfolding put_port
port-Reads port h = (write_le 2 port, refl, λ rest. read_uint16-write port rest h)

firewalled_res-Reads : Reads read_uint32 put_firewalled_res (λ ip. ip < 2 ^ 32)
unfolding put_firewalled_res
firewalled_res-Reads ip h = (write_le 4 ip, refl, λ rest. read_uint32-write ip rest h)

pub record IsFirewalledReq (f : FirewalledReq) : Type 0 where
  pub tcp_port : f.tcp_port < 65536
  pub id : length f.id ≡ 16

get_firewalled_req-Reads : Reads get_firewalled_req put_firewalled_req IsFirewalledReq
unfolding get_firewalled_req put_firewalled_req read_byte
get_firewalled_req-Reads f v =
    let a = write_le 2 f.tcp_port in
    let i = put_id f.id in
    let tail = f.options ∷ [] in
    (
      a ++ (i ++ tail),
      refl,
      λ rest. ground (
        arith,
        append_assoc a (i ++ tail) rest,
        append_assoc i tail rest,
        read_uint16-write f.tcp_port ((i ++ tail) ++ rest) v.tcp_port,
        get_id-put f.id (tail ++ rest) v.id,
      ),
    )

firewalled_udp-Reads : Reads get_firewalled_udp put_firewalled_udp (λ f. f.tcp_port < 65536)
unfolding get_firewalled_udp put_firewalled_udp read_byte
firewalled_udp-Reads f h = (
  f.error_code ∷ write_le 2 f.tcp_port,
  refl,
  λ rest. ground (arith, read_uint16-write f.tcp_port rest h),
)

-- Each packet by which KAD nodes get to know each other is packed to bytes that decode to its
-- operation and unpack, whatever follows, to the same packet, for values that fit their fields,
-- a hello's version that is not 0, and contacts that are not marked as verified, which the
-- packets do not carry.
pub node_packets-IsPacket :
    IsPacket bootstrap_res_format IsBootstrapRes
    × ((opcode : ℕ) → IsPacket (hello_format opcode) IsHello)
    × IsPacket req_format IsReq
    × IsPacket res_format IsRes
    × IsPacket pong_format (λ p. p < 65536)
    × IsPacket legacy_firewalled_req_format (λ p. p < 65536)
    × IsPacket firewalled_req_format IsFirewalledReq
    × IsPacket firewalled_res_format (λ ip. ip < 2 ^ 32)
    × IsPacket firewalled_udp_format (λ f. f.tcp_port < 65536)
node_packets-IsPacket = (
  Reads-IsPacket 0x09 get_bootstrap_res put_bootstrap_res IsBootstrapRes get_bootstrap_res-Reads,
  (λ opcode. Reads-IsPacket opcode get_hello put_hello IsHello get_hello-Reads),
  Reads-IsPacket 0x21 get_req put_req IsReq get_req-Reads,
  Reads-IsPacket 0x29 get_res put_res IsRes get_res-Reads,
  Reads-IsPacket 0x61 read_uint16 put_port (λ p. p < 65536) port-Reads,
  Reads-IsPacket 0x50 read_uint16 put_port (λ p. p < 65536) port-Reads,
  Reads-IsPacket 0x53 get_firewalled_req put_firewalled_req IsFirewalledReq
      get_firewalled_req-Reads,
  Reads-IsPacket 0x58 read_uint32 put_firewalled_res (λ ip. ip < 2 ^ 32) firewalled_res-Reads,
  Reads-IsPacket 0x62 get_firewalled_udp put_firewalled_udp (λ f. f.tcp_port < 65536)
      firewalled_udp-Reads,
)

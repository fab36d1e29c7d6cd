-- ===== src/Wire/ServerMet/Faithful.antt =====
-- The file of known servers is read back as it was written, and stays so when a server is added.
use goed2k.Common.{
  ℕ, ◌+◌, ◌%◌, ◌^◌, ◌<◌, ◌≤◌, ◌≡◌, List, [], ◌∷◌, ◌++◌, append_assoc, length, length-append, All,
  All-append, arith, ◌⊎◌, inl, inr,
}
use goed2k.Wire.{ok, IsFaithfulBelow}
use goed2k.Wire.Basic.{read_byte, write_le, write_endpoint}
use goed2k.Wire.RoundTrip.{read_uint32-write, length-write_le, read_endpoint-write}
use goed2k.Wire.Tag.{put_tag_list}
use goed2k.Wire.Tag.Lists.{get_tag_list-put, length-put_tag_list, announced}
use goed2k.Wire.Many.{put_many, get_many_below-put, length-put_many, least-le-put_many}
use goed2k.Wire.Client.Faithful.{IsEndpoint, IsTagList, length-write_endpoint}
use goed2k.Wire.ServerMet.{
  ServerMetEntry, get_server, put_server, server_format, ServerMet, known_header, get_server_met,
  put_server_met, server_met_format, server_met_header, server_met_header_large, add_server,
}

pub record IsServer (e : ServerMetEntry) : Type 0 where
  pub endpoint : IsEndpoint e.endpoint
  pub tags : IsTagList e.tags

pub record IsServerMet (m : ServerMet) : Type 0 where
  pub header : (m.header ≡ server_met_header) ⊎ (m.header ≡ server_met_header_large)
  pub servers : All IsServer m.servers
  pub size : length m.servers < 2 ^ 32

server_format-IsFaithful : IsFaithfulBelow (2 ^ 33) server_format IsServer
unfolding get_server put_server
server_format-IsFaithful = record {
  round_trip = λ e rest v b.
      let p = write_endpoint e.endpoint in
      let t = put_tag_list e.tags in
      ground (
        arith,
        append_assoc p t rest,
        read_endpoint-write e.endpoint (t ++ rest) v.endpoint.ip v.endpoint.port,
        get_tag_list-put e.tags rest v.tags.tags v.tags.size (
            omega (arith, b, length-append (p ++ t) rest, length-append p t, length-append t rest)),
      );
  sized = λ e v. omega (
    arith,
    length-append (write_endpoint e.endpoint) (put_tag_list e.tags),
    length-write_endpoint e.endpoint,
    length-put_tag_list e.tags v.tags.tags,
  );
}

least_server : (e : ServerMetEntry) → IsServer e → 10 ≤ server_format.bytes_count e
least_server e v = omega (arith, announced e.tags)

known : (m : ServerMet) → IsServerMet m → known_header m.header ≡ m.header
unfolding known_header
known m v = elim v.header [ inl e ↦ ground arith | inr e ↦ ground arith ]

server_met_format-IsFaithful : IsFaithfulBelow (2 ^ 33) server_met_format IsServerMet
unfolding get_server_met put_server_met read_byte
server_met_format-IsFaithful = record {
  round_trip = λ m rest v b.
      let n = write_le 4 (length m.servers) in
      let es = put_many put_server m.servers in
      let n' = write_le 4 (length m.servers % 2 ^ 32) in
      let fits : length (es ++ rest) < 2 ^ 33 =
        omega
          (arith, b, length-append n' es, length-append (n' ++ es) rest, length-append es rest) in
      ground (
        arith,
        v.size,
        known m v,
        append_assoc n es rest,
        read_uint32-write (length m.servers) (es ++ rest) v.size,
        length-append es rest,
        least-le-put_many server_format IsServer server_format-IsFaithful.sized 10 m.servers
            least_server v.servers,
        b,
        length-append (m.header ∷ n ++ es) rest,
        length-append n (es ++ rest),
        get_many_below-put (2 ^ 33) server_format IsServer server_format-IsFaithful m.servers rest
            v.servers fits,
      );
  sized = λ m v.
      let n = write_le 4 (length m.servers % 2 ^ 32) in
      let es = put_many put_server m.servers in
      omega (
        arith,
        length-append n es,
        length-write_le 4 (length m.servers % 2 ^ 32),
        length-put_many server_format IsServer server_format-IsFaithful.sized m.servers v.servers,
      );
}

-- Adding a server to a file that is not full keeps it valid.
pub add_server-IsServerMet :
    (m : ServerMet) (e : ServerMetEntry)
    → IsServerMet m
    → IsServer e
    → length m.servers + 1 < 2 ^ 32
    → IsServerMet (add_server m e)
unfolding add_server
add_server-IsServerMet m e v w h = record {
  header = v.header;
  servers = All-append IsServer m.servers (e ∷ []) v.servers (w, tt);
  size = omega (arith, length-append m.servers (e ∷ []));
}

-- A valid server.met of fewer than 2^32 - 1 servers to which AddServer added a valid server is
-- read back by Get as Put wrote it, and what follows is left, if both take fewer than 2^33
-- bytes: the test of the number of servers against the bytes that are left does not refuse it.
pub server_met-added :
    (m : ServerMet) (e : ServerMetEntry) (rest : List ℕ)
    → IsServerMet m
    → IsServer e
    → length m.servers + 1 < 2 ^ 32
    → length (put_server_met (add_server m e) ++ rest) < 2 ^ 33
    → get_server_met (put_server_met (add_server m e) ++ rest) ≡ ok (add_server m e, rest)
server_met-added m e rest v w h b =
    server_met_format-IsFaithful.round_trip (add_server m e) rest (add_server-IsServerMet m e v w h)
      b

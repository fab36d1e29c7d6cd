-- ===== src/Peers/Candidate.antt =====
-- The choice of the next peer to connect to: `FindConnectCandidate` of policy.go, and the addresses
-- of util.go that it looks at.
pub mod Best
use Prim.Native.Nat.{bit_and, bit_or}
use goed2k.Common.{
  ℕ, zero, suc, ◌+◌, ◌-◌, ◌*◌, ◌/◌, ◌%◌, ◌^◌, List, Bool, true, false, ◌&&◌, ◌||◌, not, Option,
  none, some, ltb, leb, ◌==◌, if◌then◌else◌, length, get_elem?,
}
use goed2k.Peers.{
  Peer, Policy, is_connect_candidate, is_erase_candidate, should_erase_immediately,
  max_peer_list_size, min_reconnect_timeout, peer_incoming, peer_server, peer_dht, peer_resume,
  delete_at, bool_ne,
}
use goed2k.Peers.Changes.{may_replace, moved_up}

-- The four bytes of an int32 in the other order.
unfoldable pub ntohl : ℕ → ℕ
ntohl ip =
    ip % 256 * 2 ^ 24 + ip / 2 ^ 8 % 256 * 2 ^ 16 + ip / 2 ^ 16 % 256 * 2 ^ 8 + ip / 2 ^ 24 % 256

unfoldable pub is_local_address : ℕ → Bool
unfolding ntohl
is_local_address ip =
    let host = ntohl ip in
    (bit_and host 0xff000000 == 0x0a000000)
    || ((bit_and host 0xfff00000 == 0xac100000)
        || ((bit_and host 0xffff0000 == 0xc0a80000)
            || ((bit_and host 0xffff0000 == 0xa9fe0000)
                || (bit_and host 0xff000000 == 0x7f000000))))

abbrev is_bit : ℕ → ℕ → Bool
is_bit value mask = bit_and value mask == mask

abbrev with_flag : Bool → ℕ → ℕ → ℕ
with_flag b flag ret = if b then bit_or ret flag else ret

unfoldable pub get_source_rank : ℕ → ℕ
get_source_rank source_bitmask = with_flag (is_bit source_bitmask peer_resume) (2 ^ 2) (
    with_flag (is_bit source_bitmask peer_incoming) (2 ^ 3) (
      with_flag (is_bit source_bitmask peer_dht) (2 ^ 4)
        (with_flag (is_bit source_bitmask peer_server) (2 ^ 5) 0)))

-- Whether the first of two peers is the better one to connect to.
unfoldable pub compare_peers : Peer → Peer → Bool
compare_peers lhs rhs =
    let local = is_local_address lhs.endpoint.ip in
    let rhs_local = is_local_address rhs.endpoint.ip in
    let rank = get_source_rank lhs.source_flag in
    let rhs_rank = get_source_rank rhs.source_flag in
    if not (lhs.fail_count == rhs.fail_count)
    then ltb lhs.fail_count rhs.fail_count
    else (if bool_ne local rhs_local
        then local
        else (if not (lhs.last_connected == rhs.last_connected)
            then ltb lhs.last_connected rhs.last_connected
            else (if not (lhs.next_connection == rhs.next_connection)
                then ltb lhs.next_connection rhs.next_connection
                else (if not (rank == rhs_rank) then ltb rhs_rank rank else false))))

-- The two tests of the times: a next connection that is set and lies before the session time skips
-- the peer, and so does a last connection whose wait is not over.
unfoldable pub passes_times : ℕ → Peer → Bool
passes_times session_time pe =
    not (not (pe.next_connection == 0) && ltb pe.next_connection session_time)
    && not (
        not (pe.last_connected == 0)
        && ltb session_time
            (pe.last_connected + (pe.fail_count + 1) * 1000 * min_reconnect_timeout))

pub record Finding : Type 0 where
  pub peers : List Peer
  pub candidate : Option ℕ
  pub erase_candidate : Option ℕ
  pub round : ℕ

-- `candidate != -1 && ComparePeers(peers[candidate], pe)`.
unfoldable pub is_beaten : List Peer → Option ℕ → Peer → Option Bool
is_beaten peers none pe = some false
is_beaten peers (some c) pe = elim (get_elem? peers c) [
  | none ↦ none
  | some best ↦ some (compare_peers best pe)
]

abbrev pub chosen : ℕ → Option ℕ → ℕ → Peer → Bool → Option ℕ
chosen session_time candidate current pe true = candidate
chosen session_time candidate current pe false =
    if passes_times session_time pe then some current else candidate

-- The second half of the loop's body.
unfoldable pub consider : ℕ → Finding → ℕ → Peer → Option Finding
unfolding is_beaten
consider session_time s current pe =
    if is_connect_candidate pe
    then elim (is_beaten s.peers s.candidate pe) [
      | none ↦ none
      | some b ↦ some (record s {
        candidate = chosen session_time s.candidate current pe b;
        round = current + 1;
      })
    ]
    else some (record s { round = current + 1 })

abbrev erase_or_consider : ℕ → Finding → ℕ → Peer → Bool → Option Finding
erase_or_consider session_time s current pe false = consider session_time s current pe
erase_or_consider session_time s current pe true =
    if should_erase_immediately pe
    then some (record {
      peers = delete_at current s.peers;
      candidate = moved_up current s.candidate;
      erase_candidate = moved_up current s.erase_candidate;
      round = current;
    })
    else consider session_time (record s { erase_candidate = some current }) current pe

abbrev find_at : ℕ → Finding → ℕ → Peer → Option Finding
find_at session_time s current pe =
    if ltb max_peer_list_size (length s.peers) && is_erase_candidate pe
    then elim (may_replace s.peers s.erase_candidate pe) [
      | none ↦ none
      | some b ↦ erase_or_consider session_time s current pe b
    ]
    else consider session_time s current pe

unfoldable pub find_step : ℕ → Finding → Option Finding
unfolding consider may_replace
find_step session_time s =
    let current = if leb (length s.peers) s.round then 0 else s.round in
    elim (get_elem? s.peers current) [ none ↦ none | some pe ↦ find_at session_time s current pe ]

-- The loop, with the rounds that are left of 300; `iteration` counts up.
unfoldable pub find_loop : ℕ → ℕ → ℕ → Finding → Option Finding
unfolding find_step
find_loop zero iteration session_time s = some s
find_loop (suc n) iteration session_time s =
    let more : Option Finding = elim (find_step session_time s) [
      | none ↦ none
      | some s' ↦ find_loop n (iteration + 1) session_time s'
    ] in
    if ltb iteration (length s.peers) then more else some s

abbrev pub without_erased : Finding → Policy × Option ℕ
without_erased s = elim s.erase_candidate [
  | none ↦ (record { peers = s.peers; round_robin = s.round }, s.candidate)
  | some c ↦ (record { peers = delete_at c s.peers; round_robin = s.round }, moved_up c s.candidate)
]

abbrev pub found_of : Option Finding → Option (Policy × Option ℕ)
found_of none = none
found_of (some s) = some (without_erased s)

-- The slot of the peer that was found.
unfoldable pub find_connect_candidate : ℕ → Policy → Option (Policy × Option ℕ)
unfolding find_loop
find_connect_candidate session_time p =
    let start = if leb (length p.peers) p.round_robin then 0 else p.round_robin in
    found_of (
      find_loop 300 0 session_time
        (record { peers = p.peers; candidate = none; erase_candidate = none; round = start }))

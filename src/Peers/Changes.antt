-- ===== src/Peers/Changes.antt =====
-- The operations of policy.go that change the list of peers.
pub mod Kept
pub mod Run
pub mod Crash
use goed2k.Common.{
  ℕ, zero, suc, ◌+◌, ◌-◌, ◌*◌, ◌/◌, List, [], ◌∷◌, Bool, true, false, ◌&&◌, ◌||◌, not, Option, none,
  some, ltb, leb, ◌==◌, if◌then◌else◌, length, get_elem?, set,
}
use Prim.Native.Nat.{bit_or, min}
use goed2k.Wire.Basic.{Endpoint}
use goed2k.Peers.{
  Peer, Connection, new_peer_with_source, Policy, max_peer_list_size, is_erase_candidate,
  should_erase_immediately, compare_peer_erase, search_from, binary_search, insert_at, delete_at,
  get, peers_equal, is_some,
}

-- `MaxPeerListSize * 95 / 100`, which is less than the maximum.
abbrev pub low_watermark : ℕ
low_watermark = 95

-- The list, `eraseCandidate` and `roundRobin` of `ErasePeers`.
pub record Erasing : Type 0 where
  pub peers : List Peer
  pub candidate : Option ℕ
  pub round : ℕ

-- `eraseCandidate == -1 || !ComparePeerErase(peers[eraseCandidate], pe)`.
unfoldable pub may_replace : List Peer → Option ℕ → Peer → Option Bool
may_replace peers none pe = some true
may_replace peers (some c) pe = elim (get_elem? peers c) [
  | none ↦ none
  | some best ↦ some (not (compare_peer_erase best pe))
]

-- An index behind a peer that is deleted moves up.
abbrev pub moved_up : ℕ → Option ℕ → Option ℕ
moved_up current none = none
moved_up current (some c) = if ltb current c then some (c - 1) else some c

abbrev pub erase_this : Erasing → ℕ → Peer → Bool → Erasing
erase_this s current pe false = record s { round = current + 1 }
erase_this s current pe true =
    if should_erase_immediately pe
    then record {
      peers = delete_at current s.peers;
      candidate = moved_up current s.candidate;
      round = current + 1;
    }
    else record s { candidate = some current; round = current + 1 }

abbrev erase_at : Erasing → ℕ → Peer → Option Erasing
erase_at s current pe =
    if is_erase_candidate pe
    then elim (may_replace s.peers s.candidate pe) [
      | none ↦ none
      | some b ↦ some (erase_this s current pe b)
    ]
    else some (erase_this s current pe false)

-- One iteration at a list that is not below the mark.
unfoldable pub erase_step : Erasing → Option Erasing
unfolding may_replace
erase_step s =
    let current = if s.round == length s.peers then 0 else s.round in
    elim (get_elem? s.peers current) [ none ↦ none | some pe ↦ erase_at s current pe ]

unfoldable pub erase_loop : ℕ → Erasing → Option Erasing
unfolding erase_step
erase_loop zero s = some s
erase_loop (suc n) s =
    let next : Option Erasing = elim (erase_step s) [ none ↦ none | some s' ↦ erase_loop n s' ] in
    if ltb (length s.peers) low_watermark then some s else next

abbrev pub erased : Option Erasing → Option (List Peer)
erased none = none
erased (some s) = some (elim s.candidate [ none ↦ s.peers | some c ↦ delete_at c s.peers ])

-- `random` is `rnd.Intn(len(peers))`.
unfoldable pub erase_peers : ℕ → List Peer → Option (List Peer)
unfolding erase_loop
erase_peers random [] = some []
erase_peers random (p ∷ ps) = erased (
    erase_loop (min (length (p ∷ ps)) 300)
      (record { peers = p ∷ ps; candidate = none; round = random }))

pub data Added : Type 0 where
  added known limit_exceeded : Added

-- The source flags of a peer that is known already grow.
abbrev pub add_source : List Peer → ℕ → ℕ → List Peer
add_source peers i flag = elim (get_elem? peers i) [
  | none ↦ peers
  | some pe ↦ set peers i (record pe { source_flag = bit_or pe.source_flag flag })
]

abbrev insert_found : List Peer → Peer → ℕ × Bool → List Peer × Added
insert_found peers peer (i, found) =
    if found then (add_source peers i peer.source_flag, known) else (insert_at i peer peers, added)

unfoldable pub insert_peer : List Peer → Peer → List Peer × Added
unfolding search_from insert_at
insert_peer peers peer = insert_found peers peer (binary_search peers peer)

abbrev insert_erased : List Peer → Peer → List Peer × Added
insert_erased peers peer =
    if leb max_peer_list_size (length peers)
    then (peers, limit_exceeded)
    else insert_peer peers peer

unfoldable pub add_peer : ℕ → List Peer → Peer → Option (List Peer × Added)
unfolding insert_peer erase_peers
add_peer random peers peer =
    let room : Option (List Peer × Added) = elim (erase_peers random peers) [
      | none ↦ none
      | some left ↦ some (insert_erased left peer)
    ] in
    if leb max_peer_list_size (length peers) then room else some (insert_peer peers peer)

unfoldable pub set_connection : List Peer → ℕ → Option Connection → List Peer
set_connection peers i c = elim (get_elem? peers i) [
  | none ↦ peers
  | some pe ↦ set peers i (record pe { connection = c })
]

-- The results of `NewConnection`.
pub data Attached : Type 0 where
  attached : ℕ → Attached
  duplicate_connection duplicate_peer too_many : Attached

abbrev pub attach_added : Endpoint → Connection → List Peer × Added → Option (List Peer × Attached)
attach_added ep c (peers, limit_exceeded) = some (peers, too_many)
attach_added ep c (peers, known) = some (peers, duplicate_peer)
attach_added ep c (peers, added) = elim (get peers ep) [
  | none ↦ none
  | some i ↦ some (set_connection peers i (some c), attached i)
]

abbrev pub attach_known : List Peer → ℕ → Connection → Option Peer → Option (List Peer × Attached)
attach_known peers i c none = none
attach_known peers i c (some pe) =
    if is_some pe.connection
    then some (peers, duplicate_connection)
    else some (set_connection peers i (some c), attached i)

-- The connection keeps a pointer to the peer: the number of its slot.
unfoldable pub new_connection :
    ℕ → List Peer → Endpoint → Connection → Option (List Peer × Attached)
unfolding add_peer get set_connection
new_connection random peers ep c = elim (get peers ep) [
  | some i ↦ attach_known peers i c (get_elem? peers i)
  | none ↦ elim (add_peer random peers (new_peer_with_source ep false 0)) [
    | none ↦ none
    | some r ↦ attach_added ep c r
  ]
]

-- The peer as `ConnectionClosed` leaves it.
abbrev pub closed_peer : Bool → Bool → ℕ → Peer → Peer
closed_peer paused failed session_time pe =
    if paused
    then record pe { connection = none; next_connection = 0; last_connected = 0 }
    else record pe {
      connection = none;
      last_connected = session_time;
      fail_count = if failed then pe.fail_count + 1 else pe.fail_count;
    }

-- `slices.Delete` of the first peer of an endpoint.
unfoldable pub delete_equal : Peer → List Peer → List Peer
unfolding peers_equal
delete_equal peer [] = []
delete_equal peer (p ∷ ps) = if peers_equal p peer then ps else p ∷ delete_equal peer ps

-- `i` is the slot that the connection's pointer stands for.
unfoldable pub connection_closed : List Peer → ℕ → Bool → Bool → ℕ → List Peer
unfolding delete_equal
connection_closed peers i paused failed session_time = elim (get_elem? peers i) [
  | none ↦ peers
  | some pe ↦
      let pe' = closed_peer paused failed session_time pe in
      let peers' = set peers i pe' in
      if not paused && not pe.connectable then delete_equal pe' peers' else peers'
]

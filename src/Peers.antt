-- ===== src/Peers.antt =====
-- The peers of a transfer: peer.go, policy.go, and the order of endpoints in protocol/endpoint.go.
-- Times are milliseconds that are not negative. `transfer` and `rnd` are arguments: whether the
-- transfer is finished, and the number that `rnd.Intn` gives. Go's panic is `none`.
pub mod Order
pub mod Changes
pub mod Candidate
mod Examples
use Prim.Native.Nat.{bit_and, bit_or}
use mathlib.Core.Option
use goed2k.Common.{
  ℕ, zero, suc, ◌+◌, ◌-◌, ◌*◌, ◌/◌, ◌%◌, ◌^◌, List, [], ◌∷◌, Bool, true, false, ◌&&◌, ◌||◌, not,
  Option, none, some, ltb, leb, ◌==◌, if◌then◌else◌, length, get_elem?, set,
}
use goed2k.Common.Int.{ℤ, pos, negsuc}
use goed2k.Wire.Basic.{Endpoint}

-- A connection is the number that stands for its pointer.
abbrev pub Connection : Type 0
Connection = ℕ

pub record Peer : Type 0 where
  pub last_connected : ℕ
  pub next_connection : ℕ
  pub fail_count : ℕ
  pub connectable : Bool
  pub source_flag : ℕ
  pub connection : Option Connection
  pub endpoint : Endpoint

abbrev pub new_peer_with_source : Endpoint → Bool → ℕ → Peer
new_peer_with_source ep conn source_flag = record {
  last_connected = 0;
  next_connection = 0;
  fail_count = 0;
  connectable = conn;
  source_flag = source_flag;
  connection = none;
  endpoint = ep;
}

abbrev pub new_peer : Endpoint → Peer
new_peer ep = new_peer_with_source ep false 0

-- The place of an int32 among all of them, from its bit pattern.
abbrev pub int32_rank : ℕ → ℕ
int32_rank x = (x + 2 ^ 31) % 2 ^ 32

-- -1, 0 or 1.
unfoldable pub compare_endpoints : Endpoint → Endpoint → ℤ
compare_endpoints e other =
    if ltb (int32_rank other.ip) (int32_rank e.ip)
    then pos 1
    else (if ltb (int32_rank e.ip) (int32_rank other.ip)
        then negsuc 0
        else (if ltb other.port e.port
            then pos 1
            else (if ltb e.port other.port then negsuc 0 else pos 0)))

abbrev pub is_negative : ℤ → Bool
is_negative (pos n) = false
is_negative (negsuc n) = true

abbrev pub is_zero : ℤ → Bool
is_zero (pos n) = n == 0
is_zero (negsuc n) = false

unfoldable pub compare_peers_by_endpoint : Peer → Peer → ℤ
unfolding compare_endpoints
compare_peers_by_endpoint p other = compare_endpoints p.endpoint other.endpoint

unfoldable pub peers_equal : Peer → Peer → Bool
unfolding compare_endpoints
peers_equal p other = is_zero (compare_endpoints p.endpoint other.endpoint)

abbrev pub max_peer_list_size : ℕ
max_peer_list_size = 100

abbrev pub min_reconnect_timeout : ℕ
min_reconnect_timeout = 10

abbrev pub peer_incoming : ℕ
peer_incoming = 0x1

abbrev pub peer_server : ℕ
peer_server = 0x2

abbrev pub peer_dht : ℕ
peer_dht = 0x4

abbrev pub peer_resume : ℕ
peer_resume = 0x8

pub record Policy : Type 0 where
  pub round_robin : ℕ
  pub peers : List Peer

abbrev pub new_policy : Policy
new_policy = record { round_robin = 0; peers = [] }

abbrev pub is_some : Option Connection → Bool
is_some none = false
is_some (some c) = true

unfoldable pub is_connect_candidate : Peer → Bool
is_connect_candidate pe =
    not (is_some pe.connection || (not pe.connectable || ltb 10 pe.fail_count))

unfoldable pub is_erase_candidate : Peer → Bool
unfolding is_connect_candidate
is_erase_candidate pe =
    if is_some pe.connection || is_connect_candidate pe then false else ltb 0 pe.fail_count

unfoldable pub should_erase_immediately : Peer → Bool
should_erase_immediately peer = bit_and peer.source_flag peer_resume == peer_resume

abbrev pub bool_ne : Bool → Bool → Bool
bool_ne true b = not b
bool_ne false b = b

-- Of two peers, whether the first goes first.
unfoldable pub compare_peer_erase : Peer → Peer → Bool
unfolding should_erase_immediately
compare_peer_erase lhs rhs =
    if not (lhs.fail_count == rhs.fail_count)
    then ltb rhs.fail_count lhs.fail_count
    else (if bool_ne (should_erase_immediately lhs) (should_erase_immediately rhs)
        then should_erase_immediately lhs
        else (if bool_ne lhs.connectable rhs.connectable then not lhs.connectable else false))

-- `slices.BinarySearchFunc`: the first place whose peer is not before the target, and whether it is
-- equal. On a sorted slice it is what the library promises.
unfoldable pub search_from : ℕ → List Peer → Peer → ℕ × Bool
unfolding compare_peers_by_endpoint
search_from i [] target = (i, false)
search_from i (p ∷ ps) target =
    if is_negative (compare_peers_by_endpoint p target)
    then search_from (i + 1) ps target
    else (i, is_zero (compare_peers_by_endpoint p target))

abbrev pub binary_search : List Peer → Peer → ℕ × Bool
binary_search = search_from 0

-- `slices.Insert` and `slices.Delete` of one element.
unfoldable pub insert_at : ℕ → Peer → List Peer → List Peer
insert_at zero x ps = x ∷ ps
insert_at (suc i) x [] = x ∷ []
insert_at (suc i) x (p ∷ ps) = p ∷ insert_at i x ps

unfoldable pub delete_at : ℕ → List Peer → List Peer
delete_at i [] = []
delete_at zero (p ∷ ps) = ps
delete_at (suc i) (p ∷ ps) = p ∷ delete_at i ps

unfoldable pub get : List Peer → Endpoint → Option ℕ
unfolding compare_endpoints
get [] ep = none
get (p ∷ ps) ep =
    if is_zero (compare_endpoints p.endpoint ep) then some 0 else Option.map suc (get ps ep)

unfoldable pub find_peer : Policy → Endpoint → Option ℕ
unfolding search_from
find_peer p ep =
    let (pos', found) = binary_search p.peers (new_peer ep) in if found then some pos' else none

-- ===== src/Peers/Examples.antt =====
-- Lists of peers, and the theorems at concrete inputs.
use goed2k.Common.{
  ℕ, zero, suc, ◌≡◌, refl, ap, List, [], ◌∷◌, ◌++◌, true, false, Option, none, some, length, arith,
}
use goed2k.Wire.Basic.{Endpoint}
use goed2k.Peers.{
  Peer, Policy, new_peer_with_source, is_connect_candidate, is_erase_candidate,
  should_erase_immediately, compare_endpoints, compare_peers_by_endpoint, search_from, insert_at,
  get, peers_equal, peer_server, peer_resume,
}
use goed2k.Peers.Changes.{
  added, attached, add_peer, insert_peer, set_connection, new_connection, connection_closed,
  delete_equal, erase_peers,
}
use goed2k.Peers.Changes.Kept.{IsValid}
use goed2k.Peers.Changes.Run.{add, attach, close, here, next, Reach-IsValid}
use goed2k.Peers.Changes.Crash.{erase_peers-panics}
use goed2k.Peers.Candidate.{find_connect_candidate}
use goed2k.Peers.Candidate.Best.{IsBestSlot, find_connect_candidate-Best}

abbrev at : ℕ → Endpoint
at n = record { ip = n; port = 4662 }

abbrev served : ℕ → Peer
served n = new_peer_with_source (at n) true peer_server

abbrev newcomer : ℕ → Peer
newcomer n = new_peer_with_source (at n) false 0

-- The second peer goes before the first, and the third connects.
add_first : add_peer 0 [] (served 7) ≡ some (served 7 ∷ [], added)
unfolding add_peer insert_peer search_from insert_at compare_peers_by_endpoint compare_endpoints
add_first = refl

add_second : add_peer 0 (served 7 ∷ []) (served 3) ≡ some (served 3 ∷ served 7 ∷ [], added)
unfolding add_peer insert_peer search_from insert_at compare_peers_by_endpoint compare_endpoints
add_second = refl

abbrev connected : Peer
connected = record (newcomer 5) { connection = some 40 }

attach_third :
    new_connection 0 (served 3 ∷ served 7 ∷ []) (at 5) 40
    ≡ some (served 3 ∷ connected ∷ served 7 ∷ [], attached 1)
unfolding new_connection add_peer insert_peer search_from insert_at get compare_peers_by_endpoint
    compare_endpoints set_connection
attach_third = refl

close_third :
    connection_closed (served 3 ∷ connected ∷ served 7 ∷ []) 1 false true 900
    ≡ served 3 ∷ served 7 ∷ []
unfolding connection_closed delete_equal peers_equal compare_endpoints
close_third = refl

Reach-IsValid_example : IsValid (served 3 ∷ served 7 ∷ [])
Reach-IsValid_example = Reach-IsValid (
    next
      (next
        (next (next here (add 0 (served 7) added add_first)) (add 0 (served 3) added add_second))
        (attach 0 (at 5) 40 (attached 1) attach_third))
      (close 1 false true 900 close_third))

-- A peer from a resume file that failed too often.
abbrev failing : Peer
failing = record (new_peer_with_source (at 9) true peer_resume) { fail_count = 11 }

abbrev many : ℕ → List Peer
many zero = []
many (suc n) = failing ∷ many n

length-many : (n : ℕ) → length (many n) ≡ n
length-many zero = refl
length-many (suc n) = ap suc (length-many n)

failing_candidate : is_erase_candidate failing ≡ true
unfolding is_erase_candidate is_connect_candidate
failing_candidate = refl

failing_at_once : should_erase_immediately failing ≡ true
unfolding should_erase_immediately
failing_at_once = refl

erase_peers-panics_example : erase_peers (length (many 95)) (many 95 ++ (failing ∷ [])) ≡ none
erase_peers-panics_example =
    erase_peers-panics (many 95) failing failing_candidate failing_at_once
      (omega (arith, length-many 95))

abbrev two_peers : Policy
two_peers = record { round_robin = 1; peers = served 3 ∷ connected ∷ [] }

find_connect_candidate-Best_example :
    (r : ℕ) × (c : Option ℕ) × (find_connect_candidate 5000 two_peers
      ≡ some (record { peers = two_peers.peers; round_robin = r }, c))
    × IsBestSlot 5000 two_peers.peers c
find_connect_candidate-Best_example = find_connect_candidate-Best 5000 two_peers (omega arith)

-- ===== src/Kad/Examples.antt =====
-- Identifiers, tables and requests, and the theorems at concrete inputs.
use Prim.Native.Nat.{min}
use mathlib.Core.List.{Perm}
use goed2k.Common.{
  ℕ, ◌+◌, ◌≡◌, ◌≤◌, refl, List, [], ◌∷◌, ◌++◌, true, false, none, some, length, get_elem?, ltb,
  if◌then◌else◌, replicate, arith,
}
use goed2k.Common.Int.{pos, negsuc}
use goed2k.Kad.{
  KadId, bucket_index, equal, first_bit, index_from, distance_compare, random_id_within_bucket,
}
use goed2k.Kad.Distance.{IsId, bucket_index-closer}
use goed2k.Kad.Target.{bucket_index-random_id}
use goed2k.Kad.Table.{
  Node, Table, new_table, reidentify, add_node, node_failed, known_id, find_node, is_node,
  add_to_bucket,
}
use goed2k.Kad.Refresh.{find_closest}
use goed2k.Kad.Run.{here, next, add, fail, IsTable, Reach-IsTable}
use goed2k.Kad.Closest.{IsByDistance, live_nodes, find_closest-closest}
use goed2k.Kad.Rpc.{Transaction, new_rpc_manager}
use goed2k.Kad.Rpc.Accounts.{
  Event, invoked, received, ticked, run_events, issued, of_observer, run_events-accounts,
}

abbrev starting : ℕ → KadId
starting b = b ∷ replicate 15 7

abbrev self : KadId
self = starting 0xf0

starting-IsId : IsId (starting 0xf0) × IsId (starting 0x70) × IsId (starting 0xf1)
starting-IsId = (omega arith, omega arith, omega arith)

buckets : (bucket_index self (starting 0x70) ≡ 0) × (bucket_index self (starting 0xf1) ≡ 7)
unfolding bucket_index index_from first_bit
buckets = (refl, refl)

bucket_index-closer_example : distance_compare (starting 0xf1) (starting 0x70) self ≡ negsuc 0
bucket_index-closer_example =
    bucket_index-closer self (starting 0x70) (starting 0xf1) starting-IsId (omega (arith, buckets))

bucket_index-random_id_example :
    bucket_index self (random_id_within_bucket (some (replicate 16 3)) 77 self) ≡ 77
bucket_index-random_id_example =
    bucket_index-random_id self (replicate 16 3) 77 starting-IsId.0 refl (omega arith)

abbrev node : ℕ → ℕ → Node
node first addr = record {
  id = starting first;
  addr = some addr;
  tcp_port = 4662;
  version = 8;
  seed = false;
  hello_sent = false;
  pinged = false;
  fail_count = 0;
  first_seen = none;
  last_seen = none;
}

abbrev start : Table
start = new_table 5 self (pos 1)

abbrev after_two : Table
after_two = add_node 7 (add_node 6 start (node 0x70 1) true) (node 0x71 2) false

abbrev after_fail : Table
after_fail = node_failed after_two (node 0x70 1)

Reach-IsTable_example : IsTable after_fail
Reach-IsTable_example = Reach-IsTable 5 self (pos 1) (
    next (next (next here (add 6 (node 0x70 1) true refl)) (add 7 (node 0x71 2) false refl))
      (fail (node 0x70 1) refl))

-- A node of the table that turns up with another identifier stays in the bucket of its old one, and is
-- added to that of the new one too.
abbrev bucket_ids : ℕ → Table → List KadId
bucket_ids i t = elim (get_elem? t.buckets i) [ none ↦ [] | some b ↦ ids b.live ]
  where
    ids : List Node → List KadId
    ids [] = []
    ids (n ∷ ns) = n.id ∷ ids ns

reidentify_lem :
    let t = add_node 8 (reidentify 1 (starting 0xf1) after_two) (node 0xf1 1) false in
    (bucket_ids 0 t ≡ starting 0xf1 ∷ []) × (bucket_ids 7 t ≡ starting 0xf1 ∷ [])
unfolding reidentify add_node add_to_bucket known_id find_node is_node new_table bucket_index
    index_from first_bit equal
reidentify_lem = (refl, refl)

find_closest-closest_example :
    (rest : List Node) × IsByDistance self (find_closest after_two self 1 true ++ rest)
    × Perm (find_closest after_two self 1 true ++ rest) (live_nodes true after_two.buckets)
    × (length (find_closest after_two self 1 true) ≡ (
        if ltb 0 1
        then min 1 (length (live_nodes true after_two.buckets))
        else length (live_nodes true after_two.buckets)))
unfolding add_node add_to_bucket known_id find_node is_node new_table bucket_index index_from
    first_bit equal
find_closest-closest_example = find_closest-closest after_two self 1 true (omega arith)

abbrev asked : Transaction
asked = record {
  endpoint_key = 1;
  opcode = 0x29;
  target = none;
  sent_time = 0;
  multi = false;
  short_timed = false;
  observer = 4;
}

abbrev events : List Event
events = invoked 100 asked ∷ ticked 2200 ∷ ticked 2300 ∷ received (some 1) 0x29 none ∷ []

run_events-accounts_example :
    (of_observer 4 (run_events 4 new_rpc_manager events).0.transactions
        + (run_events 4 new_rpc_manager events).1.given_up
        + (run_events 4 new_rpc_manager events).1.answered
      ≡ issued 4 events)
    × ((run_events 4 new_rpc_manager events).1.late ≤ issued 4 events)
run_events-accounts_example = run_events-accounts 4 events

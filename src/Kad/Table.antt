-- ===== src/Kad/Table.antt =====
-- The routing table of kad_routing.go. A node is its value, an address is the number that stands for
-- its text, and a time is a number of seconds, `none` for Go's zero time. Tables and nodes are not nil.
pub mod Occurs
pub mod Kept
use goed2k.Common.{
  ℕ, zero, suc, ◌+◌, ◌-◌, ◌*◌, List, [], ◌∷◌, ◌++◌, map, Bool, true, false, ◌&&◌, ◌||◌, not, Option,
  none, some, ltb, leb, ◌==◌, if◌then◌else◌, length, get_elem?, get_or, set, take, drop, replicate,
}
use goed2k.Common.Int.{ℤ, pos, negsuc}
use goed2k.Kad.{KadId, invalid, equal, distance_compare, bucket_index, random_id_within_bucket}

pub record Node : Type 0 where
  pub id : KadId
  pub addr : Option ℕ
  pub tcp_port : ℕ
  pub version : ℕ
  pub seed : Bool
  pub hello_sent : Bool
  pub pinged : Bool
  pub fail_count : ℕ
  pub first_seen : Option ℕ
  pub last_seen : Option ℕ

unfoldable pub known_id : Node → Bool
unfolding equal
known_id n = not (equal n.id invalid)

pub record Bucket : Type 0 where
  pub live : List Node
  pub replacements : List Node
  pub last_active : ℕ

pub record Table : Type 0 where
  pub self : KadId
  pub bucket_size : ℕ
  pub buckets : List Bucket
  pub last_bootstrap : Option ℕ
  pub last_refresh : Option ℕ
  pub last_self_refresh : Option ℕ

abbrev pub size_or_default : ℤ → ℕ
size_or_default (pos zero) = 10
size_or_default (pos (suc n)) = suc n
size_or_default (negsuc n) = 10

abbrev pub new_bucket : ℕ → Bucket
new_bucket now = record { live = []; replacements = []; last_active = now }

unfoldable pub new_table : ℕ → KadId → ℤ → Table
new_table now self bucket_size = record {
  self = self;
  bucket_size = size_or_default bucket_size;
  buckets = replicate 128 (new_bucket now);
  last_bootstrap = none;
  last_refresh = none;
  last_self_refresh = none;
}

abbrev same_addr : Option ℕ → Option ℕ → Bool
same_addr (some a) (some b) = a == b
same_addr _ _ = false

-- The test of `findKadNode`.
unfoldable pub is_node : Node → Node → Bool
unfolding known_id equal
is_node needle node =
    ((known_id node && known_id needle) && equal node.id needle.id)
    || same_addr node.addr needle.addr

abbrev next_place : Option ℕ → Option ℕ
next_place none = none
next_place (some i) = some (suc i)

unfoldable pub find_node : List Node → Node → Option ℕ
unfolding is_node
find_node [] needle = none
find_node (n ∷ ns) needle = if is_node needle n then some 0 else next_place (find_node ns needle)

-- `append(nodes[:pos], nodes[pos+1:]...)`.
unfoldable pub remove_at : ℕ → List Node → List Node
remove_at i [] = []
remove_at zero (n ∷ ns) = ns
remove_at (suc i) (n ∷ ns) = n ∷ remove_at i ns

unfoldable pub move_to_end : List Node → ℕ → List Node
unfolding remove_at
move_to_end nodes index = elim (get_elem? nodes index) [
  | none ↦ nodes
  | some n ↦ remove_at index nodes ++ (n ∷ [])
]

-- What a node that is there takes from one that was heard of or seen.
abbrev pub updated : ℕ → Bool → Node → Node → Node
updated now confirmed node existing = record existing {
  addr = node.addr;
  tcp_port = node.tcp_port;
  version = node.version;
  last_seen = some now;
  pinged = confirmed || existing.pinged;
  fail_count = if confirmed then 0 else existing.fail_count;
}

abbrev or_now : ℕ → Option ℕ → Option ℕ
or_now now none = some now
or_now now (some t) = some t

abbrev pub arrived : ℕ → Bool → Node → Node
arrived now confirmed node = record node {
  last_seen = some now;
  first_seen = or_now now node.first_seen;
  pinged = confirmed || node.pinged;
  fail_count = if confirmed then 0 else node.fail_count;
}

abbrev pub update_live : ℕ → Bool → Node → Bucket → ℕ → Option Node → Bucket
update_live now confirmed node b i none = b
update_live now confirmed node b i (some existing) = record b {
  live = move_to_end (set b.live i (updated now confirmed node existing)) i;
}

-- A replacement that is confirmed goes to the live nodes if there is room, else to the end.
abbrev pub update_replacement : ℕ → ℕ → Bool → Node → Bucket → ℕ → Option Node → Bucket
update_replacement size now confirmed node b i none = b
update_replacement size now confirmed node b i (some existing) =
    let e = updated now confirmed node existing in
    if not confirmed
    then record b { replacements = set b.replacements i e }
    else (if ltb (length b.live) size
        then record b { live = b.live ++ (e ∷ []); replacements = remove_at i b.replacements }
        else record b { replacements = remove_at i b.replacements ++ (e ∷ []) })

-- The oldest replacement makes room.
abbrev pub insert_new : ℕ → Node → Bucket → Bucket
insert_new size node b =
    if ltb (length b.live) size
    then record b { live = b.live ++ (node ∷ []) }
    else (if ltb (length b.replacements) size
        then record b { replacements = b.replacements ++ (node ∷ []) }
        else record b { replacements = drop 1 b.replacements ++ (node ∷ []) })

unfoldable pub add_to_bucket : ℕ → ℕ → Bool → Node → Bucket → Bucket
unfolding find_node move_to_end
add_to_bucket size now confirmed node bucket =
    let b : Bucket = record bucket { last_active = now } in
    elim (find_node b.live node) [
      | some i ↦ update_live now confirmed node b i (get_elem? b.live i)
      | none ↦ elim (find_node b.replacements node) [
        | some i ↦ update_replacement size now confirmed node b i (get_elem? b.replacements i)
        | none ↦ insert_new size (arrived now confirmed node) b
      ]
    ]

-- A live node that answered before: the oldest replacement takes its place, and without one it stays
-- until it has failed 20 times.
abbrev pub fail_pinged : Bucket → ℕ → Node → List Node → Bucket
fail_pinged b i failed (r ∷ rs) = record b { live = set b.live i r; replacements = rs }
fail_pinged b i failed [] =
    if leb 20 failed.fail_count
    then record b { live = remove_at i b.live }
    else record b { live = set b.live i failed }

abbrev pub fail_live : Bucket → ℕ → Option Node → Bucket
fail_live b i none = b
fail_live b i (some existing) =
    if not existing.pinged
    then record b { live = remove_at i b.live }
    else fail_pinged b i (record existing { fail_count = existing.fail_count + 1 }) b.replacements

unfoldable pub fail_in_bucket : Node → Bucket → Bucket
unfolding find_node remove_at
fail_in_bucket node b = elim (find_node b.live node) [
  | some i ↦ fail_live b i (get_elem? b.live i)
  | none ↦ elim (find_node b.replacements node) [
    | some i ↦ record b { replacements = remove_at i b.replacements }
    | none ↦ b
  ]
]

abbrev pub at_bucket : (Bucket → Bucket) → List Bucket → Option Bucket → ℕ → List Bucket
at_bucket f bs none i = bs
at_bucket f bs (some b) i = set bs i (f b)

abbrev pub change_bucket : (Bucket → Bucket) → ℕ → Table → Table
change_bucket f i t = record t { buckets = at_bucket f t.buckets (get_elem? t.buckets i) i }

unfoldable pub add_node : ℕ → Table → Node → Bool → Table
unfolding add_to_bucket bucket_index known_id
add_node now t node confirmed =
    if not (known_id node)
    then t
    else change_bucket (add_to_bucket t.bucket_size now confirmed node)
        (bucket_index t.self node.id) t

abbrev pub heard_about : ℕ → Table → Node → Table
heard_about now t node = add_node now t node false

abbrev pub node_seen : ℕ → Table → Node → Table
node_seen now t node = add_node now t node true

unfoldable pub node_failed : Table → Node → Table
unfolding fail_in_bucket bucket_index known_id
node_failed t node =
    if not (known_id node)
    then t
    else change_bucket (fail_in_bucket node) (bucket_index t.self node.id) t

unfoldable pub touch_bucket : ℕ → Table → KadId → Table
unfolding bucket_index
touch_bucket now t target =
    change_bucket (λ b. record b { last_active = now }) (bucket_index t.self target) t

abbrev with_id : ℕ → KadId → List Node → List Node
with_id addr id [] = []
with_id addr id (n ∷ ns) =
    (if same_addr n.addr (some addr) then record n { id = id } else n) ∷ with_id addr id ns

abbrev each_with_id : ℕ → KadId → List Bucket → List Bucket
each_with_id addr id [] = []
each_with_id addr id (b ∷ bs) =
    record b { live = with_id addr id b.live; replacements = with_id addr id b.replacements }
    ∷ each_with_id addr id bs

-- `node.ID = id` of `addOrUpdateNodeLocked`, for the node at an address: the tracker and the table
-- hold one pointer to it, so the table's node changes where it stands.
unfoldable pub reidentify : ℕ → KadId → Table → Table
reidentify addr id t = record t { buckets = each_with_id addr id t.buckets }

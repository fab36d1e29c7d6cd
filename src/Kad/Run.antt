-- ===== src/Kad/Run.antt =====
-- Every history of a routing table.
use goed2k.Common.{
  none-ne-some, some-eq, ℕ, zero, suc, ◌<◌, ◌≡◌, refl, sym, ap, ◌∙◌, Bool, Option, none, some,
  length, length-set, length-replicate, get_elem?, get_elem?-set_self, get_elem?-set_ne,
  lt-length_of_get, ℕ_discrete, set, replicate, arith, Bool-cases, inl, inr,
}
use goed2k.Common.Int.{ℤ, pos, negsuc}
use goed2k.Kad.{KadId, bucket_index}
use goed2k.Kad.Table.{
  Node, Bucket, Table, known_id, new_bucket, new_table, size_or_default, add_to_bucket,
  fail_in_bucket, change_bucket, at_bucket, add_node, node_failed, touch_bucket,
}
use goed2k.Kad.Table.Occurs.{occ}
use goed2k.Kad.Table.Kept.{IsBucket, fewer, add_to_bucket-IsBucket, fail_in_bucket-IsBucket}
use goed2k.Kad.Refresh.{need_bootstrap, need_refresh}

pub record IsTable (t : Table) : Type 0 where
  pub has_all : length t.buckets ≡ 128
  pub has_room : 0 < t.bucket_size
  pub fit :
      (i : ℕ) (b : Bucket) → get_elem? t.buckets i ≡ some b → IsBucket t.self t.bucket_size i b

get_elem?-replicate : (n i : ℕ) (b c : Bucket) → get_elem? (replicate n b) i ≡ some c → c ≡ b
get_elem?-replicate zero i b c e = absurd (none-ne-some e)
get_elem?-replicate (suc n) zero b c e = sym (some-eq e)
get_elem?-replicate (suc n) (suc i) b c e = get_elem?-replicate n i b c e

new_bucket-IsBucket : (self : KadId) (size i now : ℕ) → IsBucket self size i (new_bucket now)
unfolding occ
new_bucket-IsBucket self size i now = record {
  live_fit = omega arith;
  replacements_fit = omega arith;
  unique = λ h. omega arith;
  placed = λ h p. absurd (omega (arith, p));
}

default_positive : (n : ℤ) → 0 < size_or_default n
default_positive (pos zero) = omega arith
default_positive (pos (suc n)) = omega arith
default_positive (negsuc n) = omega arith

new_table-IsTable : (now : ℕ) (self : KadId) (n : ℤ) → IsTable (new_table now self n)
unfolding new_table
new_table-IsTable now self n = record {
  has_all = length-replicate 128 (new_bucket now);
  has_room = default_positive n;
  fit = λ i b e.
      let same : new_bucket now ≡ b = sym (get_elem?-replicate 128 i (new_bucket now) b e) in
      rw same at (new_bucket-IsBucket self (size_or_default n) i now);
}

module _ (t : Table) (f : Bucket → Bucket) (i : ℕ)
    (keeps : (b : Bucket)
      → IsBucket t.self t.bucket_size i b
      → IsBucket t.self t.bucket_size i (f b)) where
  at_bucket-fit :
      (o : Option Bucket) (j : ℕ) (c : Bucket)
      → IsTable t
      → get_elem? t.buckets i ≡ o
      → get_elem? (at_bucket f t.buckets o i) j ≡ some c
      → IsBucket t.self t.bucket_size j c
  at_bucket-fit none j c v e q = v.fit j c q
  at_bucket-fit (some b) j c v e q = elim (ℕ_discrete i j) [
    | no other ↦ v.fit j c (sym (get_elem?-set_ne t.buckets i j (f b) other) ∙ q)
    | yes same ↦
        let here : get_elem? (set t.buckets i (f b)) j ≡ some (f b) =
          ap (get_elem? (set t.buckets i (f b))) (sym same)
          ∙ get_elem?-set_self t.buckets i (f b) (lt-length_of_get t.buckets i e) in
        let is_c : f b ≡ c = some-eq (sym here ∙ q) in rw (same, is_c) at (keeps b (v.fit i b e))
  ]

  at_bucket-length : (o : Option Bucket) → length (at_bucket f t.buckets o i) ≡ length t.buckets
  at_bucket-length none = refl
  at_bucket-length (some b) = length-set t.buckets i (f b)

  change_bucket-IsTable : IsTable t → IsTable (change_bucket f i t)
  change_bucket-IsTable v = record {
    has_all = at_bucket-length (get_elem? t.buckets i) ∙ v.has_all;
    has_room = v.has_room;
    fit = λ j c q. at_bucket-fit (get_elem? t.buckets i) j c v refl q;
  }

add_node-IsTable :
    (now : ℕ) (t : Table) (node : Node) (seen : Bool)
    → IsTable t
    → IsTable (add_node now t node seen)
unfolding add_node
add_node-IsTable now t node seen v = elim (Bool-cases (known_id node)) [
  | inr unknown ↦ rw (add_node, unknown) v
  | inl known ↦
      rw (add_node, known)
        (change_bucket-IsTable t (add_to_bucket t.bucket_size now seen node)
          (bucket_index t.self node.id)
          (λ b w.
            add_to_bucket-IsBucket t.self t.bucket_size (bucket_index t.self node.id) now seen node
              b w v.has_room refl known)
          v)
]

node_failed-IsTable : (t : Table) (node : Node) → IsTable t → IsTable (node_failed t node)
unfolding node_failed
node_failed-IsTable t node v = elim (Bool-cases (known_id node)) [
  | inr unknown ↦ rw (node_failed, unknown) v
  | inl known ↦
      rw (node_failed, known)
        (change_bucket-IsTable t (fail_in_bucket node) (bucket_index t.self node.id)
          (fail_in_bucket-IsBucket t.self t.bucket_size (bucket_index t.self node.id) node) v)
]

touch_bucket-IsTable :
    (now : ℕ) (t : Table) (target : KadId) → IsTable t → IsTable (touch_bucket now t target)
unfolding touch_bucket
touch_bucket-IsTable now t target v =
    let i = bucket_index t.self target in
    change_bucket-IsTable t (λ b. record b { last_active = now }) i
      (λ b w.
        fewer t.self t.bucket_size i b (record b { last_active = now }) w w.live_fit
          w.replacements_fit (λ h. omega arith))
      v

-- The buckets and the size of a table, without its times.
abbrev IsAlike : Table → Table → Type 0
IsAlike t u = (u.self ≡ t.self) × (u.bucket_size ≡ t.bucket_size) × (u.buckets ≡ t.buckets)

alike-IsTable : (t u : Table) → IsAlike t u → IsTable t → IsTable u
alike-IsTable t u a v = record {
  has_all = ap length a.2 ∙ v.has_all;
  has_room = omega (arith, a.1, v.has_room);
  fit = λ i b q. rw (a.0, a.1) (v.fit i b (ap (λ bs. get_elem? bs i) (sym a.2) ∙ q));
}

need_bootstrap-IsAlike : (t : Table) (now : ℕ) → IsAlike t (need_bootstrap t now).1
unfolding need_bootstrap
need_bootstrap-IsAlike t now = ground arith

need_refresh-IsAlike :
    (random : Option KadId) (t : Table) (now : ℕ) → IsAlike t (need_refresh random t now).1
unfolding need_refresh
need_refresh-IsAlike random t now = ground arith

pub data Step (t : Table) : Table → Type 0 where
  add : {u : Table} (now : ℕ) (node : Node) (seen : Bool) → add_node now t node seen ≡ u → Step t u
  fail : {u : Table} (node : Node) → node_failed t node ≡ u → Step t u
  touch : {u : Table} (now : ℕ) (target : KadId) → touch_bucket now t target ≡ u → Step t u
  bootstrap : {u : Table} (now : ℕ) → (need_bootstrap t now).1 ≡ u → Step t u
  refresh :
      {u : Table} (random : Option KadId) (now : ℕ) → (need_refresh random t now).1 ≡ u → Step t u

pub data Reach (t : Table) : Table → Type 0 where
  here : Reach t t
  next : {u w : Table} → Reach t u → Step u w → Reach t w

Step-IsTable : {t u : Table} → Step t u → IsTable t → IsTable u
Step-IsTable {t} (add now node seen e) v = rw e at (add_node-IsTable now t node seen v)
Step-IsTable {t} (fail node e) v = rw e at (node_failed-IsTable t node v)
Step-IsTable {t} (touch now target e) v = rw e at (touch_bucket-IsTable now t target v)
Step-IsTable {t} (bootstrap now e) v =
    rw e at (alike-IsTable t (need_bootstrap t now).1 (need_bootstrap-IsAlike t now) v)
Step-IsTable {t} (refresh random now e) v =
    rw e at (alike-IsTable t (need_refresh random t now).1 (need_refresh-IsAlike random t now) v)

-- In every routing table that a new one, of any size, reaches by calls of HeardAbout, NodeSeen,
-- NodeFailed, TouchBucket, NeedBootstrap and NeedRefresh, as long as no node that stands in the
-- table is given another identifier from outside (addOrUpdateNode of the tracker can do that,
-- and breaks it), there are 128 buckets. Each has at most bucketSize live nodes and as many
-- replacements, no identifier occurs twice among both, and every node has a known identifier
-- whose bucket index is that of the bucket.
pub Reach-IsTable :
    (now : ℕ) (self : KadId) (n : ℤ) {t : Table} → Reach (new_table now self n) t → IsTable t
Reach-IsTable now self n here = new_table-IsTable now self n
Reach-IsTable now self n (next r s) = Step-IsTable s (Reach-IsTable now self n r)

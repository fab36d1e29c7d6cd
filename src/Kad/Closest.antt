-- ===== src/Kad/Closest.antt =====
-- The nodes that `FindClosest` gives are the closest ones.
use Prim.Native.Nat.{min, bit_xor}
use mathlib.Core.List.{Perm}
use mathlib.Core.List.Perm
use goed2k.Common.{
  true-ne-false, ℕ, zero, suc, ◌+◌, ◌<◌, ◌≡◌, ◌⊎◌, refl, sym, ap, ◌∙◌, List, [], ◌∷◌, ◌++◌,
  append-nil, Bool, true, false, ◌&&◌, ltb, if◌then◌else◌, length, length-take, take, drop, All,
  arith, Bool-cases, inl, inr,
}
use goed2k.Common.Int.{ℤ, pos, negsuc}
use goed2k.Kad.{KadId, distance_compare}
use goed2k.Kad.Table.{Node, Bucket, Table}
use goed2k.Kad.Refresh.{
  is_closer, insert_sorted, sort_by_distance, confirmed, all_live, find_closest,
}

abbrev below : ℤ → Bool
below (pos n) = false
below (negsuc n) = true

compare_asymm :
    (a b t : KadId) → below (distance_compare a b t) ≡ true → below (distance_compare b a t) ≡ false
unfolding distance_compare
compare_asymm [] b t h = absurd (true-ne-false (sym h))
compare_asymm (x ∷ xs) [] t h = refl
compare_asymm (x ∷ xs) (y ∷ ys) [] h = refl
compare_asymm (x ∷ xs) (y ∷ ys) (z ∷ zs) h = ground (arith, h, compare_asymm xs ys zs)

-- No closer than one that is no closer.
compare_trans :
    (a b c t : KadId)
    → (length a ≡ length t) × (length b ≡ length t) × (length c ≡ length t)
    → below (distance_compare a b t) ≡ false
    → below (distance_compare b c t) ≡ false
    → below (distance_compare a c t) ≡ false
unfolding distance_compare
compare_trans [] b c t l h k = refl
compare_trans (x ∷ xs) b c [] l h k = absurd (omega (arith, l))
compare_trans (x ∷ xs) [] c (t ∷ ts) l h k = absurd (omega (arith, l))
compare_trans (x ∷ xs) (y ∷ ys) [] (t ∷ ts) l h k = refl
compare_trans (x ∷ xs) (y ∷ ys) (z ∷ zs) (t ∷ ts) l h k =
    ground (arith, h, k, compare_trans xs ys zs ts (omega (arith, l)))

is_closer-below : (t : KadId) (a b : Node) → is_closer t a b ≡ below (distance_compare a.id b.id t)
is_closer-below t a b = ground arith

-- None is closer to the target than one before it.
abbrev Sorted : KadId → List Node → Type 0
Sorted t [] = Unit {0}
Sorted t (n ∷ ns) = All (λ m. is_closer t m n ≡ false) ns × Sorted t ns

abbrev pub HasLength : KadId → Node → Type 0
HasLength t n = length n.id ≡ length t

insert-All :
    (P : Node → Type 0) (t : KadId) (n : Node) (ns : List Node)
    → P n
    → All P ns
    → All P (insert_sorted t n ns)
unfolding insert_sorted
insert-All P t n [] p a = (p, tt)
insert-All P t n (m ∷ ms) p a = elim (Bool-cases (is_closer t m n)) [
  | inl first ↦ rw (insert_sorted, first) (a.0, insert-All P t n ms p a.1)
  | inr later ↦ rw (insert_sorted, later) (p, a)
]

sort-All :
    (P : Node → Type 0) (t : KadId) (ns : List Node) → All P ns → All P (sort_by_distance t ns)
unfolding sort_by_distance
sort-All P t [] a = tt
sort-All P t (n ∷ ns) a = insert-All P t n (sort_by_distance t ns) a.0 (sort-All P t ns a.1)

behind :
    (t : KadId) (n m : Node) (ms : List Node)
    → is_closer t m n ≡ false
    → HasLength t n
    → HasLength t m
    → All (HasLength t) ms
    → All (λ x. is_closer t x m ≡ false) ms
    → All (λ x. is_closer t x n ≡ false) ms
behind t n m [] h l k a b = tt
behind t n m (x ∷ xs) h l k a b = (
  is_closer-below t x n
      ∙ compare_trans x.id m.id n.id t (a.0, k, l) (sym (is_closer-below t x m) ∙ b.0)
          (sym (is_closer-below t m n) ∙ h),
  behind t n m xs h l k a.1 b.1,
)

insert-Sorted :
    (t : KadId) (n : Node) (ns : List Node)
    → HasLength t n
    → All (HasLength t) ns
    → Sorted t ns
    → Sorted t (insert_sorted t n ns)
unfolding insert_sorted
insert-Sorted t n [] l a s = (tt, tt)
insert-Sorted t n (m ∷ ms) l a s = elim (Bool-cases (is_closer t m n)) [
  | inl first ↦
      let not_back : is_closer t n m ≡ false =
        is_closer-below t n m ∙ compare_asymm m.id n.id t (sym (is_closer-below t m n) ∙ first) in
      rw (insert_sorted, first)
        (
          insert-All (λ x. is_closer t x m ≡ false) t n ms not_back s.0,
          insert-Sorted t n ms l a.1 s.1,
        )
  | inr later ↦ rw (insert_sorted, later) ((later, behind t n m ms later l a.0 a.1 s.0), s)
]

sort-Sorted : (t : KadId) (ns : List Node) → All (HasLength t) ns → Sorted t (sort_by_distance t ns)
unfolding sort_by_distance
sort-Sorted t [] a = tt
sort-Sorted t (n ∷ ns) a =
    insert-Sorted t n (sort_by_distance t ns) a.0 (sort-All (HasLength t) t ns a.1)
      (sort-Sorted t ns a.1)

insert-perm : (t : KadId) (n : Node) (ns : List Node) → Perm (insert_sorted t n ns) (n ∷ ns)
unfolding insert_sorted
insert-perm t n [] = Perm.refl (n ∷ [])
insert-perm t n (m ∷ ms) = elim (Bool-cases (is_closer t m n)) [
  | inl first ↦
      rw (insert_sorted, first) (Perm.trans (Perm.cons m (insert-perm t n ms)) (Perm.swap n m ms))
  | inr later ↦ rw (insert_sorted, later) (Perm.refl (n ∷ m ∷ ms))
]

sort-perm : (t : KadId) (ns : List Node) → Perm (sort_by_distance t ns) ns
unfolding sort_by_distance
sort-perm t [] = Perm.refl []
sort-perm t (n ∷ ns) =
    Perm.trans (insert-perm t n (sort_by_distance t ns)) (Perm.cons n (sort-perm t ns))

length-insert :
    (t : KadId) (n : Node) (ns : List Node) → length (insert_sorted t n ns) ≡ length ns + 1
unfolding insert_sorted
length-insert t n [] = omega arith
length-insert t n (m ∷ ms) = ground (arith, length-insert t n ms)

length-sort : (t : KadId) (ns : List Node) → length (sort_by_distance t ns) ≡ length ns
unfolding sort_by_distance
length-sort t [] = refl
length-sort t (n ∷ ns) = omega (arith, length-insert t n (sort_by_distance t ns), length-sort t ns)

take-drop : (n : ℕ) (ns : List Node) → take n ns ++ drop n ns ≡ ns
take-drop zero ns = refl
take-drop (suc n) [] = refl
take-drop (suc n) (x ∷ xs) = ap (◌∷◌ x) (take-drop n xs)

-- The XORs of two identifiers with the target, compared from the first byte on: an
-- identifier is no farther if its own is the smaller one in the first byte where they differ, or none is.
abbrev pub NoFarther : KadId → KadId → KadId → Type 0
NoFarther (t ∷ ts) (x ∷ xs) (y ∷ ys) =
    (bit_xor x t < bit_xor y t) ⊎ ((bit_xor x t ≡ bit_xor y t) × NoFarther ts xs ys)
NoFarther _ _ _ = Unit {0}

-- Each is no farther from the target than any behind it.
abbrev pub IsByDistance : KadId → List Node → Type 0
IsByDistance t [] = Unit {0}
IsByDistance t (n ∷ ns) = All (λ m. NoFarther t n.id m.id) ns × IsByDistance t ns

-- The live nodes of the buckets: all of them, or those that were pinged.
abbrev pub pinged_nodes : List Node → List Node
pinged_nodes [] = []
pinged_nodes (n ∷ ns) = if n.pinged then n ∷ pinged_nodes ns else pinged_nodes ns

abbrev pub live_nodes : Bool → List Bucket → List Node
live_nodes unconfirmed [] = []
live_nodes true (b ∷ bs) = b.live ++ live_nodes true bs
live_nodes false (b ∷ bs) = pinged_nodes b.live ++ live_nodes false bs

compare-NoFarther : (a b t : KadId) → below (distance_compare b a t) ≡ false → NoFarther t a b
unfolding distance_compare
compare-NoFarther [] b [] h = tt
compare-NoFarther [] b (t ∷ ts) h = tt
compare-NoFarther (x ∷ xs) b [] h = tt
compare-NoFarther (x ∷ xs) [] (t ∷ ts) h = tt
compare-NoFarther (x ∷ xs) (y ∷ ys) (t ∷ ts) h = ground (arith, h, compare-NoFarther xs ys ts)

All-NoFarther :
    (t : KadId) (n : Node) (ns : List Node)
    → All (λ m. is_closer t m n ≡ false) ns
    → All (λ m. NoFarther t n.id m.id) ns
All-NoFarther t n [] a = tt
All-NoFarther t n (m ∷ ms) a =
    (compare-NoFarther n.id m.id t (sym (is_closer-below t m n) ∙ a.0), All-NoFarther t n ms a.1)

Sorted-IsByDistance : (t : KadId) (ns : List Node) → Sorted t ns → IsByDistance t ns
Sorted-IsByDistance t [] s = tt
Sorted-IsByDistance t (n ∷ ns) s = (All-NoFarther t n ns s.0, Sorted-IsByDistance t ns s.1)

confirmed-nodes :
    (ns : List Node) → (confirmed true ns ≡ ns) × (confirmed false ns ≡ pinged_nodes ns)
unfolding confirmed
confirmed-nodes [] = (refl, refl)
confirmed-nodes (n ∷ ns) = let k = confirmed-nodes ns in (ap (◌∷◌ n) k.0, ground (arith, k.1))

all_live-nodes :
    (unconfirmed : Bool) (bs : List Bucket) → all_live unconfirmed bs ≡ live_nodes unconfirmed bs
unfolding all_live
all_live-nodes true [] = refl
all_live-nodes false [] = refl
all_live-nodes true (b ∷ bs) = rw ((confirmed-nodes b.live).0, all_live-nodes true bs) refl
all_live-nodes false (b ∷ bs) = rw ((confirmed-nodes b.live).1, all_live-nodes false bs) refl

-- The same with the comparison and the collection of the program.
closest_lem :
    (t : Table) (target : KadId) (limit : ℕ) (unconfirmed : Bool)
    → let nodes = all_live unconfirmed t.buckets in
      let closest = find_closest t target limit unconfirmed in
      All (HasLength target) nodes
      → (rest : List Node) × Sorted target (closest ++ rest)
        × Perm (closest ++ rest) nodes
        × (length closest ≡ (if ltb 0 limit then min limit (length nodes) else length nodes))
unfolding find_closest
closest_lem t target limit unconfirmed a =
    let nodes = all_live unconfirmed t.buckets in
    let s = sort_by_distance target nodes in
    let z = length-sort target nodes in
    elim (Bool-cases (ltb 0 limit && ltb limit (length s))) [
      | inl cut ↦ (
        drop limit s,
        rw (find_closest, cut, take-drop limit s) (sort-Sorted target nodes a),
        rw (find_closest, cut, take-drop limit s) (sort-perm target nodes),
        rw (find_closest, cut) (ground (arith, cut, z, length-take limit s)),
      )
      | inr whole ↦ (
        [],
        rw (find_closest, whole, append-nil s) (sort-Sorted target nodes a),
        rw (find_closest, whole, append-nil s) (sort-perm target nodes),
        rw (find_closest, whole) (ground (arith, whole, z)),
      )
    ]

-- If the identifiers of the live nodes are as long as the target, then FindClosest gives as many
-- of the live nodes (those that were pinged only, unless unconfirmed ones are asked for) as the
-- limit allows, and with the nodes that it leaves out, in some order, they are exactly all such
-- nodes, each no farther from the target than any behind it: in the first byte where their XORs
-- with the target differ, its own is the smaller one.
pub find_closest-closest :
    (t : Table) (target : KadId) (limit : ℕ) (unconfirmed : Bool)
    → let nodes = live_nodes unconfirmed t.buckets in
      let closest = find_closest t target limit unconfirmed in
      All (HasLength target) nodes
      → (rest : List Node) × IsByDistance target (closest ++ rest)
        × Perm (closest ++ rest) nodes
        × (length closest ≡ (if ltb 0 limit then min limit (length nodes) else length nodes))
find_closest-closest t target limit unconfirmed a =
    let e = all_live-nodes unconfirmed t.buckets in
    let (rest, s, p, n) = closest_lem t target limit unconfirmed (rw (e) a) in
    (
      rest,
      Sorted-IsByDistance target (find_closest t target limit unconfirmed ++ rest) s,
      rw e at p,
      rw e at n,
    )

-- ===== src/Kad/Table/Occurs.antt =====
-- How often an identifier occurs in a list of nodes, and what each change of the list does to that.
use goed2k.Common.{
  true-ne-false, none-ne-some, some-eq, ℕ, zero, suc, ◌+◌, ◌≡◌, refl, sym, ap, ◌∙◌, List, [], ◌∷◌,
  ◌++◌, true, false, not, none, some, if◌then◌else◌, length, length-append, get_elem?, set, arith,
  Bool-cases, Option-cases, inl, inr,
}
use goed2k.Kad.{KadId, invalid, equal}
use goed2k.Kad.Table.{Node, known_id, is_node, find_node, remove_at, move_to_end}

pub equal_refl : (a : KadId) → equal a a ≡ true
unfolding equal
equal_refl [] = refl
equal_refl (x ∷ xs) = ground (arith, equal_refl xs)

pub equal-eq : (a b : KadId) → equal a b ≡ true → a ≡ b
unfolding equal
equal-eq [] [] e = refl
equal-eq [] (y ∷ ys) e = absurd (true-ne-false (sym e))
equal-eq (x ∷ xs) [] e = absurd (true-ne-false (sym e))
equal-eq (x ∷ xs) (y ∷ ys) e =
    let same : x ≡ y = ground (arith, e) in
    let rest : xs ≡ ys = equal-eq xs ys (ground (arith, e)) in rw (same, rest) refl

abbrev pub one : KadId → Node → ℕ
one h n = if equal n.id h then 1 else 0

unfoldable pub occ : KadId → List Node → ℕ
occ h [] = 0
occ h (n ∷ ns) = one h n + occ h ns

pub occ-append : (h : KadId) (xs ys : List Node) → occ h (xs ++ ys) ≡ occ h xs + occ h ys
unfolding occ
occ-append h [] ys = omega arith
occ-append h (x ∷ xs) ys = omega (arith, occ-append h xs ys)

pub occ-single : (h : KadId) (n : Node) → occ h (n ∷ []) ≡ one h n
unfolding occ
occ-single h n = omega arith

pub occ-cons : (h : KadId) (n : Node) (ns : List Node) → occ h (n ∷ ns) ≡ one h n + occ h ns
unfolding occ
occ-cons h n ns = refl

pub occ-remove_at :
    (h : KadId) (i : ℕ) (ns : List Node) (n : Node)
    → get_elem? ns i ≡ some n
    → occ h (remove_at i ns) + one h n ≡ occ h ns
unfolding occ remove_at
occ-remove_at h i [] n e = absurd (none-ne-some e)
occ-remove_at h zero (m ∷ ns) n e = omega (arith, ap (one h) (some-eq e))
occ-remove_at h (suc i) (m ∷ ns) n e = omega (arith, occ-remove_at h i ns n e)

pub length-remove_at :
    (i : ℕ) (ns : List Node) (n : Node)
    → get_elem? ns i ≡ some n
    → length (remove_at i ns) + 1 ≡ length ns
unfolding remove_at
length-remove_at i [] n e = absurd (none-ne-some e)
length-remove_at zero (m ∷ ns) n e = omega arith
length-remove_at (suc i) (m ∷ ns) n e = omega (arith, length-remove_at i ns n e)

pub occ-set :
    (h : KadId) (i : ℕ) (ns : List Node) (n m : Node)
    → get_elem? ns i ≡ some n
    → occ h (set ns i m) + one h n ≡ occ h ns + one h m
unfolding occ
occ-set h i [] n m e = absurd (none-ne-some e)
occ-set h zero (k ∷ ns) n m e = omega (arith, ap (one h) (some-eq e))
occ-set h (suc i) (k ∷ ns) n m e = omega (arith, occ-set h i ns n m e)

pub get_elem?-set_here :
    (i : ℕ) (ns : List Node) (n m : Node)
    → get_elem? ns i ≡ some n
    → get_elem? (set ns i m) i ≡ some m
get_elem?-set_here i [] n m e = absurd (none-ne-some e)
get_elem?-set_here zero (k ∷ ns) n m e = refl
get_elem?-set_here (suc i) (k ∷ ns) n m e = get_elem?-set_here i ns n m e

pub occ-move_to_end :
    (h : KadId) (i : ℕ) (ns : List Node) (n : Node)
    → get_elem? ns i ≡ some n
    → (occ h (move_to_end ns i) ≡ occ h ns) × (length (move_to_end ns i) ≡ length ns)
unfolding move_to_end
occ-move_to_end h i ns n e = ground (
  arith,
  e,
  occ-append h (remove_at i ns) (n ∷ []),
  occ-single h n,
  occ-remove_at h i ns n e,
  length-append (remove_at i ns) (n ∷ []),
  length-remove_at i ns n e,
)

pub find_node-some :
    (ns : List Node) (needle : Node) (i : ℕ)
    → find_node ns needle ≡ some i
    → (n : Node) × (get_elem? ns i ≡ some n)
unfolding find_node
find_node-some [] needle i e = absurd (none-ne-some e)
find_node-some (m ∷ ns) needle i e = elim (Bool-cases (is_node needle m)) [
  | inl this ↦ (m, ap (get_elem? (m ∷ ns)) (sym (some-eq (rw (find_node, this) at e))))
  | inr other ↦ elim (Option-cases (find_node ns needle)) [
    | inl nowhere ↦ absurd (none-ne-some (rw (find_node, other, nowhere) at e))
    | inr (j, q) ↦
        let (n, there) = find_node-some ns needle j q in
        (n, ap (get_elem? (m ∷ ns)) (sym (some-eq (rw (find_node, other, q) at e))) ∙ there)
  ]
]

pub is_node-known :
    (n needle : Node)
    → is_node needle n ≡ false
    → known_id needle ≡ true
    → equal n.id needle.id ≡ false
unfolding is_node known_id
is_node-known n needle h k = elim (Bool-cases (equal n.id needle.id)) [
  | inr other ↦ other
  | inl same ↦
      let known : known_id n ≡ true =
        ap (λ x. not (equal x invalid)) (equal-eq n.id needle.id same) ∙ k in
      absurd (true-ne-false (sym (rw (is_node, known, k, same) refl) ∙ h))
]

pub find_node-none :
    (ns : List Node) (needle : Node)
    → find_node ns needle ≡ none
    → known_id needle ≡ true
    → occ needle.id ns ≡ 0
unfolding find_node occ
find_node-none [] needle e k = refl
find_node-none (m ∷ ns) needle e k = elim (Bool-cases (is_node needle m)) [
  | inl this ↦ absurd (none-ne-some (sym (rw (find_node, this) at e)))
  | inr other ↦ elim (Option-cases (find_node ns needle)) [
    | inr (j, q) ↦ absurd (none-ne-some (sym (rw (find_node, other, q) at e)))
    | inl nowhere ↦
        ground (arith, is_node-known m needle other k, find_node-none ns needle nowhere k)
  ]
]

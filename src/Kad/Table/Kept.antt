-- ===== src/Kad/Table/Kept.antt =====
-- A bucket stays within its bounds, with nodes of its own that are all different.
use goed2k.Common.{
  ℕ, ◌+◌, ◌≤◌, ◌<◌, ◌≡◌, refl, ap, List, [], ◌∷◌, Bool, true, false, Option, none, some,
  if◌then◌else◌, length, length-append, length-set, get_elem?, set, drop, arith, Bool-cases,
  Option-cases, inl, inr,
}
use goed2k.Kad.{KadId, invalid, equal, bucket_index}
use goed2k.Kad.Table.{
  Node, Bucket, known_id, find_node, remove_at, updated, arrived, update_live, update_replacement,
  insert_new, add_to_bucket, fail_pinged, fail_live, fail_in_bucket,
}
use goed2k.Kad.Table.Occurs.{
  equal-eq, one, occ, occ-append, occ-single, occ-cons, occ-remove_at, length-remove_at, occ-set,
  get_elem?-set_here, occ-move_to_end, find_node-some, find_node-none,
}

abbrev pub total : KadId → Bucket → ℕ
total h b = occ h b.live + occ h b.replacements

pub record IsBucket (self : KadId) (size i : ℕ) (b : Bucket) : Type 0 where
  pub live_fit : length b.live ≤ size
  pub replacements_fit : length b.replacements ≤ size
  pub unique : (h : KadId) → total h b ≤ 1
  pub placed : (h : KadId) → 0 < total h b → (bucket_index self h ≡ i) × (equal h invalid ≡ false)

module _ (self : KadId) (size i : ℕ) where
  -- No identifier comes in.
  pub fewer :
      (b c : Bucket)
      → IsBucket self size i b
      → length c.live ≤ size
      → length c.replacements ≤ size
      → ((h : KadId) → total h c ≤ total h b)
      → IsBucket self size i c
  fewer b c v l r o = record {
    live_fit = l;
    replacements_fit = r;
    unique = λ h. omega (arith, o h, v.unique h);
    placed = λ h p. v.placed h (omega (arith, o h, p));
  }

  -- One identifier comes in.
  joined :
      (b c : Bucket) (node : Node)
      → IsBucket self size i b
      → length c.live ≤ size
      → length c.replacements ≤ size
      → ((h : KadId) → total h c ≤ total h b + one h node)
      → total node.id b ≡ 0
      → bucket_index self node.id ≡ i
      → known_id node ≡ true
      → IsBucket self size i c
  unfolding known_id
  joined b c node v l r o z place k = record {
    live_fit = l;
    replacements_fit = r;
    unique = λ h. elim (Bool-cases (equal node.id h)) [
      | inl same ↦ omega (
        arith,
        o h,
        ap (λ x. total x b) (equal-eq node.id h same),
        z,
        ap {B = ℕ} (λ x. if x then 1 else 0) same,
      )
      | inr other ↦ omega (arith, o h, v.unique h, ap {B = ℕ} (λ x. if x then 1 else 0) other)
    ];
    placed = λ h p. elim (Bool-cases (equal node.id h)) [
      | inl same ↦
          let known : (bucket_index self node.id ≡ i) × (equal node.id invalid ≡ false) =
            (place, ground (arith, k)) in
          rw (equal-eq node.id h same) at known
      | inr other ↦ v.placed h (omega (arith, o h, p, ap {B = ℕ} (λ x. if x then 1 else 0) other))
    ];
  }

  update_live-IsBucket :
      (now : ℕ) (confirmed : Bool) (node : Node) (b : Bucket) (j : ℕ) (o : Option Node)
      → IsBucket self size i b
      → get_elem? b.live j ≡ o
      → IsBucket self size i (update_live now confirmed node b j o)
  update_live-IsBucket now confirmed node b j none v e = v
  update_live-IsBucket now confirmed node b j (some x) v e =
      let y = updated now confirmed node x in
      let there = get_elem?-set_here j b.live x y e in
      fewer b (update_live now confirmed node b j (some x)) v
        (omega (
          arith,
          (occ-move_to_end self j (set b.live j y) y there).1,
          length-set b.live j y,
          v.live_fit,
        ))
        v.replacements_fit
        (λ h.
          omega (arith, (occ-move_to_end h j (set b.live j y) y there).0, occ-set h j b.live x y e))

  update_replacement-IsBucket :
      (now : ℕ) (confirmed : Bool) (node : Node) (b : Bucket) (j : ℕ) (o : Option Node)
      → IsBucket self size i b
      → get_elem? b.replacements j ≡ o
      → IsBucket self size i (update_replacement size now confirmed node b j o)
  update_replacement-IsBucket now confirmed node b j none v e = v
  update_replacement-IsBucket now confirmed node b j (some x) v e =
      let y = updated now confirmed node x in
      fewer b (update_replacement size now confirmed node b j (some x)) v
        (ground (arith, v.live_fit, length-append b.live (y ∷ [])))
        (ground (
          arith,
          v.replacements_fit,
          length-set b.replacements j y,
          length-remove_at j b.replacements x e,
          length-append (remove_at j b.replacements) (y ∷ []),
        ))
        (λ h. ground (
          arith,
          occ-set h j b.replacements x y e,
          occ-remove_at h j b.replacements x e,
          occ-single h y,
          occ-append h (remove_at j b.replacements) (y ∷ []),
          occ-append h b.live (y ∷ []),
        ))

  occ-drop : (h : KadId) (ns : List Node) → occ h (drop 1 ns) ≤ occ h ns
  unfolding occ
  occ-drop h [] = omega arith
  occ-drop h (n ∷ ns) = omega arith

  length-drop_one : (ns : List Node) → 0 < length ns → length (drop 1 ns) + 1 ≡ length ns
  length-drop_one [] h = absurd (omega arith)
  length-drop_one (n ∷ ns) h = omega arith

  insert_new-IsBucket :
      (node : Node) (b : Bucket)
      → IsBucket self size i b
      → 0 < size
      → total node.id b ≡ 0
      → bucket_index self node.id ≡ i
      → known_id node ≡ true
      → IsBucket self size i (insert_new size node b)
  insert_new-IsBucket node b v s z place k =
      joined b (insert_new size node b) node v
        (ground (arith, v.live_fit, length-append b.live (node ∷ [])))
        (ground (
          arith,
          v.replacements_fit,
          s,
          length-append b.replacements (node ∷ []),
          length-append (drop 1 b.replacements) (node ∷ []),
          length-drop_one b.replacements,
        ))
        (λ h. ground (
          arith,
          occ-single h node,
          occ-drop h b.replacements,
          occ-append h b.live (node ∷ []),
          occ-append h b.replacements (node ∷ []),
          occ-append h (drop 1 b.replacements) (node ∷ []),
        ))
        z place k

  fail_pinged-IsBucket :
      (b : Bucket) (j : ℕ) (x failed : Node) (rs : List Node)
      → IsBucket self size i b
      → get_elem? b.live j ≡ some x
      → failed.id ≡ x.id
      → b.replacements ≡ rs
      → IsBucket self size i (fail_pinged b j failed rs)
  fail_pinged-IsBucket b j x failed [] v e same r =
      fewer b (fail_pinged b j failed []) v
        (ground (arith, v.live_fit, length-remove_at j b.live x e, length-set b.live j failed))
        (ground (arith, v.replacements_fit))
        (λ h. ground (
          arith,
          occ-remove_at h j b.live x e,
          occ-set h j b.live x failed e,
          ap (λ y. one h (record x { id = y })) same,
        ))
  fail_pinged-IsBucket b j x failed (n ∷ rs) v e same r =
      fewer b (record b { live = set b.live j n; replacements = rs }) v
        (omega (arith, v.live_fit, length-set b.live j n))
        (omega (arith, v.replacements_fit, ap length r))
        (λ h. omega (arith, occ-set h j b.live x n e, ap (occ h) r, occ-cons h n rs))

  fail_live-IsBucket :
      (b : Bucket) (j : ℕ) (o : Option Node)
      → IsBucket self size i b
      → get_elem? b.live j ≡ o
      → IsBucket self size i (fail_live b j o)
  fail_live-IsBucket b j none v e = v
  fail_live-IsBucket b j (some x) v e = elim (Bool-cases x.pinged) [
    | inr never ↦ rw never (
        fewer b (record b { live = remove_at j b.live }) v
          (omega (arith, v.live_fit, length-remove_at j b.live x e)) v.replacements_fit
          (λ h. omega (arith, occ-remove_at h j b.live x e)))
    | inl once ↦ rw once (
        fail_pinged-IsBucket b j x (record x { pinged = true; fail_count = x.fail_count + 1 })
          b.replacements v e refl refl)
  ]

  pub add_to_bucket-IsBucket :
      (now : ℕ) (confirmed : Bool) (node : Node) (b : Bucket)
      → IsBucket self size i b
      → 0 < size
      → bucket_index self node.id ≡ i
      → known_id node ≡ true
      → IsBucket self size i (add_to_bucket size now confirmed node b)
  unfolding add_to_bucket
  add_to_bucket-IsBucket now confirmed node bucket v s place k =
      let b : Bucket = record bucket { last_active = now } in
      let v' : IsBucket self size i b =
        fewer bucket b v v.live_fit v.replacements_fit (λ h. omega arith) in
      elim (Option-cases (find_node b.live node)) [
        | inr (j, q) ↦
            rw (add_to_bucket, q)
              (update_live-IsBucket now confirmed node b j (get_elem? b.live j) v' refl)
        | inl not_live ↦ elim (Option-cases (find_node b.replacements node)) [
          | inr (j, q) ↦
              rw (add_to_bucket, not_live, q)
                (update_replacement-IsBucket now confirmed node b j (get_elem? b.replacements j) v'
                  refl)
          | inl not_there ↦
              let z : total (arrived now confirmed node).id b ≡ 0 = omega (
                arith,
                find_node-none b.live node not_live k,
                find_node-none b.replacements node not_there k,
              ) in
              rw (add_to_bucket, not_live, not_there)
                (insert_new-IsBucket (arrived now confirmed node) b v' s z place k)
        ]
      ]

  pub fail_in_bucket-IsBucket :
      (node : Node) (b : Bucket)
      → IsBucket self size i b
      → IsBucket self size i (fail_in_bucket node b)
  unfolding fail_in_bucket
  fail_in_bucket-IsBucket node b v = elim (Option-cases (find_node b.live node)) [
    | inr (j, q) ↦ rw (fail_in_bucket, q) (fail_live-IsBucket b j (get_elem? b.live j) v refl)
    | inl not_live ↦ elim (Option-cases (find_node b.replacements node)) [
      | inl not_there ↦ rw (fail_in_bucket, not_live, not_there) v
      | inr (j, q) ↦
          let (x, e) = find_node-some b.replacements node j q in
          rw (fail_in_bucket, not_live, q)
            (fewer b (record b { replacements = remove_at j b.replacements }) v v.live_fit
              (omega (arith, v.replacements_fit, length-remove_at j b.replacements x e))
              (λ h. omega (arith, occ-remove_at h j b.replacements x e)))
    ]
  ]

-- ===== src/Upload/Queue/Order.antt =====
-- The order of the waiting list.
use goed2k.Common.{
  ℕ, ◌+◌, ◌%◌, ◌^◌, ◌<◌, ◌≤◌, ◌≡◌, ◌⊎◌, All, List, [], ◌∷◌, Bool, true, false, arith, Bool-cases,
  inl, inr,
}
use goed2k.Peers.{compare_endpoints, is_negative}
use goed2k.Wire.Basic.{Endpoint}
use goed2k.Upload.{Client, upload_score}
use goed2k.Upload.Queue.{
  Env, UploadQueue, is_before, insert, sort_stable, recompute_ranks, sort_waiting,
}
use goed2k.Upload.Queue.Counts.{count, count-sort_stable}

-- No client is before the one that stands ahead of it.
abbrev Ordered : (ℕ → ℕ → Bool) → List ℕ → Type 0
Ordered lt [] = Unit {0}
Ordered lt (x ∷ []) = Unit {0}
Ordered lt (x ∷ (y ∷ ys)) = (lt y x ≡ false) × Ordered lt (y ∷ ys)

abbrev Asymmetric : (ℕ → ℕ → Bool) → Type 0
Asymmetric lt = (x y : ℕ) → lt x y ≡ true → lt y x ≡ false

behind :
    (lt : ℕ → ℕ → Bool) (a : Asymmetric lt) (x y z : ℕ) (zs : List ℕ)
    → Ordered lt (y ∷ (z ∷ zs))
    → lt y x ≡ true
    → Ordered lt (insert lt x (z ∷ zs))
    → Ordered lt (y ∷ insert lt x (z ∷ zs))
unfolding insert
behind lt a x y z zs o e i = elim (Bool-cases (lt z x)) [
  | inl g ↦ rw g (o.0, rw g at i)
  | inr g ↦ rw g (a y x e, rw g at i)
]

insert-Ordered :
    (lt : ℕ → ℕ → Bool) (a : Asymmetric lt) (x : ℕ) (ys : List ℕ)
    → Ordered lt ys
    → Ordered lt (insert lt x ys)
unfolding insert
insert-Ordered lt a x [] o = tt
insert-Ordered lt a x (y ∷ []) o = elim (Bool-cases (lt y x)) [
  | inl e ↦ rw e (a y x e, tt)
  | inr e ↦ rw e (e, tt)
]
insert-Ordered lt a x (y ∷ (z ∷ zs)) o = elim (Bool-cases (lt y x)) [
  | inr e ↦ rw e (e, o)
  | inl e ↦ rw e (behind lt a x y z zs o e (insert-Ordered lt a x (z ∷ zs) o.1))
]

sort_stable-Ordered :
    (lt : ℕ → ℕ → Bool) → Asymmetric lt → (xs : List ℕ) → Ordered lt (sort_stable lt xs)
unfolding sort_stable
sort_stable-Ordered lt a [] = tt
sort_stable-Ordered lt a (x ∷ xs) =
    insert-Ordered lt a x (sort_stable lt xs) (sort_stable-Ordered lt a xs)

compare_endpoints-asymmetric :
    (a b : Endpoint)
    → is_negative (compare_endpoints a b) ≡ true
    → is_negative (compare_endpoints b a) ≡ false
unfolding compare_endpoints
compare_endpoints-asymmetric a b h = ground (arith, h)

is_before-asymmetric :
    (weight : Client → ℕ) (a b : Client)
    → is_before weight a b ≡ true
    → is_before weight b a ≡ false
unfolding is_before
is_before-asymmetric weight a b h =
    ground (arith, h, compare_endpoints-asymmetric a.endpoint b.endpoint)

-- The endpoints in order: by address as an int32, then by port.
abbrev pub EndpointLe : Endpoint → Endpoint → Type 0
EndpointLe e f =
    ((e.ip + 2 ^ 31) % 2 ^ 32 < (f.ip + 2 ^ 31) % 2 ^ 32)
    ⊎ (((e.ip + 2 ^ 31) % 2 ^ 32 ≡ (f.ip + 2 ^ 31) % 2 ^ 32) × (e.port ≤ f.port))

-- By score, the higher one first; at one score, by the start of the wait, the earlier one first; at
-- one start, by endpoint.
abbrev pub MayPrecede : (Client → ℕ) → Client → Client → Type 0
MayPrecede weight a b =
    (upload_score weight b < upload_score weight a)
    ⊎ ((upload_score weight a ≡ upload_score weight b)
        × ((a.wait_start < b.wait_start)
            ⊎ ((a.wait_start ≡ b.wait_start) × EndpointLe a.endpoint b.endpoint)))

-- Each to every one behind it.
abbrev pub Pairwise : (ℕ → ℕ → Type 0) → List ℕ → Type 0
Pairwise R [] = Unit {0}
Pairwise R (x ∷ xs) = All (R x) xs × Pairwise R xs

compare_endpoints-EndpointLe :
    (a b : Endpoint) → is_negative (compare_endpoints b a) ≡ false → EndpointLe a b
unfolding compare_endpoints
compare_endpoints-EndpointLe a b h = ground (arith, h)

is_before-MayPrecede :
    (weight : Client → ℕ) (a b : Client) → is_before weight b a ≡ false → MayPrecede weight a b
unfolding is_before
is_before-MayPrecede weight a b h =
    ground (arith, h, compare_endpoints-EndpointLe a.endpoint b.endpoint)

EndpointLe-trans : (a b c : Endpoint) → EndpointLe a b → EndpointLe b c → EndpointLe a c
EndpointLe-trans a b c h k = ground (arith, h, k)

MayPrecede-trans :
    (weight : Client → ℕ) (a b c : Client)
    → MayPrecede weight a b
    → MayPrecede weight b c
    → MayPrecede weight a c
MayPrecede-trans weight a b c h k =
    ground (arith, h, k, EndpointLe-trans a.endpoint b.endpoint c.endpoint)

module _ (weight : Client → ℕ) (client : ℕ → Client) where
  before_all :
      (x y : ℕ) (zs : List ℕ)
      → MayPrecede weight (client x) (client y)
      → All (λ z. MayPrecede weight (client y) (client z)) zs
      → All (λ z. MayPrecede weight (client x) (client z)) zs
  before_all x y [] h a = tt
  before_all x y (z ∷ zs) h a =
      (MayPrecede-trans weight (client x) (client y) (client z) h a.0, before_all x y zs h a.1)

  -- Neighbours in order are all in order.
  Ordered-Pairwise :
      (xs : List ℕ)
      → Ordered (λ a b. is_before weight (client a) (client b)) xs
      → Pairwise (λ a b. MayPrecede weight (client a) (client b)) xs
  Ordered-Pairwise [] o = tt
  Ordered-Pairwise (x ∷ []) o = (tt, tt)
  Ordered-Pairwise (x ∷ (y ∷ ys)) o =
      let h = is_before-MayPrecede weight (client x) (client y) o.0 in
      let p = Ordered-Pairwise (y ∷ ys) o.1 in ((h, before_all x y ys h p.0), p)

-- After sortWaiting every client of the waiting list may precede every one behind it: its score
-- is higher, or at one score it has waited since an earlier time, or at one time its endpoint is
-- not the later one, by address as an int32 and then by port. Nobody is lost and nobody added.
pub sort_waiting-Pairwise :
    (env : Env) (q : UploadQueue)
    → Pairwise (λ a b. MayPrecede env.weight (q.client a) (q.client b)) (sort_waiting env q).waiting
      × ((x : ℕ) → count x (sort_waiting env q).waiting ≡ count x q.waiting)
unfolding sort_waiting recompute_ranks
sort_waiting-Pairwise env q =
    let lt = λ (a b : ℕ). is_before env.weight (q.client a) (q.client b) in
    (
      Ordered-Pairwise env.weight q.client (sort_stable lt q.waiting) (
          sort_stable-Ordered lt (λ a b. is_before-asymmetric env.weight (q.client a) (q.client b))
            q.waiting),
      λ x. count-sort_stable lt x q.waiting,
    )

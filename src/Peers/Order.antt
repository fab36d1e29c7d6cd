-- ===== src/Peers/Order.antt =====
-- Lists of peers in the order of their endpoints, and what insertion and deletion keep.
use goed2k.Common.{
  ℕ, zero, suc, ◌+◌, ◌≤◌, ◌<◌, ◌≡◌, refl, ap, ◌∙◌, List, [], ◌∷◌, map, true, false, some,
  if◌then◌else◌, length, get_elem?, set, All, arith, Bool-cases, inl, inr,
}
use goed2k.Wire.Basic.{Endpoint}
use goed2k.Peers.{
  Peer, compare_endpoints, is_negative, is_zero, compare_peers_by_endpoint, search_from,
  binary_search, insert_at, delete_at,
}

abbrev pub Before : Endpoint → Endpoint → Type 0
Before e f = is_negative (compare_endpoints e f) ≡ true

pub Before-trans : (e f g : Endpoint) → Before e f → Before f g → Before e g
unfolding compare_endpoints
Before-trans e f g h k = ground arith

pub Before-irrefl : (e : Endpoint) → ¬ Before e e
unfolding compare_endpoints
Before-irrefl e h = ground arith

pub Before-total :
    (e f : Endpoint)
    → is_negative (compare_endpoints e f) ≡ false
    → is_zero (compare_endpoints e f) ≡ false
    → Before f e
unfolding compare_endpoints
Before-total e f h k = ground arith

-- Each endpoint is before all that follow it.
abbrev pub Ascending : List Endpoint → Type 0
Ascending [] = Unit {0}
Ascending (e ∷ es) = All (Before e) es × Ascending es

abbrev pub endpoints : List Peer → List Endpoint
endpoints = map (λ p. p.endpoint)

abbrev pub IsSorted : List Peer → Type 0
IsSorted ps = Ascending (endpoints ps)

All-Before :
    (e f : Endpoint) (es : List Endpoint) → Before e f → All (Before f) es → All (Before e) es
All-Before e f [] h a = tt
All-Before e f (g ∷ es) h a = (Before-trans e f g h a.0, All-Before e f es h a.1)

search_from-shift :
    (i : ℕ) (ps : List Peer) (t : Peer)
    → search_from i ps t ≡ (i + (binary_search ps t).0, (binary_search ps t).1)
unfolding search_from
search_from-shift i [] t = ground arith
search_from-shift i (p ∷ ps) t =
    ground (arith, search_from-shift (i + 1) ps t, search_from-shift 1 ps t)

-- The search at a list with one more peer.
pub binary_search-cons :
    (p : Peer) (ps : List Peer) (t : Peer)
    → binary_search (p ∷ ps) t ≡ (
        if is_negative (compare_peers_by_endpoint p t)
        then (suc (binary_search ps t).0, (binary_search ps t).1)
        else (0, is_zero (compare_peers_by_endpoint p t)))
unfolding search_from
binary_search-cons p ps t = ground (arith, search_from-shift 1 ps t)

All-insert :
    (e : Endpoint) (i : ℕ) (x : Peer) (ps : List Peer)
    → Before e x.endpoint
    → All (Before e) (endpoints ps)
    → All (Before e) (endpoints (insert_at i x ps))
unfolding insert_at
All-insert e zero x ps h a = (h, a)
All-insert e (suc i) x [] h a = (h, tt)
All-insert e (suc i) x (p ∷ ps) h a = (a.0, All-insert e i x ps h a.1)

All-delete :
    (e : Endpoint) (i : ℕ) (ps : List Peer)
    → All (Before e) (endpoints ps)
    → All (Before e) (endpoints (delete_at i ps))
unfolding delete_at
All-delete e i [] a = tt
All-delete e zero (p ∷ ps) a = a.1
All-delete e (suc i) (p ∷ ps) a = (a.0, All-delete e i ps a.1)

pub insert-IsSorted :
    (ps : List Peer) (t : Peer)
    → IsSorted ps
    → (binary_search ps t).1 ≡ false
    → IsSorted (insert_at (binary_search ps t).0 t ps)
unfolding insert_at search_from compare_peers_by_endpoint
insert-IsSorted [] t s h = (tt, tt)
insert-IsSorted (p ∷ ps) t s h = elim (Bool-cases (is_negative (compare_peers_by_endpoint p t))) [
  | inl before ↦
      let z : binary_search (p ∷ ps) t ≡ (suc (binary_search ps t).0, (binary_search ps t).1) =
        binary_search-cons p ps t ∙ rw before in
      let h' : (binary_search ps t).1 ≡ false = rw z at h in
      rw (ap (λ r. r.0) z)
        (All-insert p.endpoint (binary_search ps t).0 t ps before s.0, insert-IsSorted ps t s.1 h')
  | inr behind ↦
      let z : binary_search (p ∷ ps) t ≡ (0, is_zero (compare_peers_by_endpoint p t)) =
        binary_search-cons p ps t ∙ rw behind in
      let h' : is_zero (compare_peers_by_endpoint p t) ≡ false = rw z at h in
      let lt : Before t.endpoint p.endpoint = Before-total p.endpoint t.endpoint behind h' in
      rw (ap (λ r. r.0) z) ((lt, All-Before t.endpoint p.endpoint (endpoints ps) lt s.0), s)
]

pub delete-IsSorted : (i : ℕ) (ps : List Peer) → IsSorted ps → IsSorted (delete_at i ps)
unfolding delete_at
delete-IsSorted i [] s = tt
delete-IsSorted zero (p ∷ ps) s = s.1
delete-IsSorted (suc i) (p ∷ ps) s = (All-delete p.endpoint i ps s.0, delete-IsSorted i ps s.1)

-- A write that keeps the endpoint.
pub endpoints-set :
    (ps : List Peer) (i : ℕ) (old new : Peer)
    → get_elem? ps i ≡ some old
    → new.endpoint ≡ old.endpoint
    → endpoints (set ps i new) ≡ endpoints ps
endpoints-set [] i old new g e = refl
endpoints-set (p ∷ ps) zero old new g e = ground (arith, g, e)
endpoints-set (p ∷ ps) (suc i) old new g e = ap (◌∷◌ p.endpoint) (endpoints-set ps i old new g e)

pub length-insert_at :
    (i : ℕ) (x : Peer) (ps : List Peer) → length (insert_at i x ps) ≡ suc (length ps)
unfolding insert_at
length-insert_at zero x ps = refl
length-insert_at (suc i) x [] = refl
length-insert_at (suc i) x (p ∷ ps) = ap suc (length-insert_at i x ps)

pub length-delete_at-le : (i : ℕ) (ps : List Peer) → length (delete_at i ps) ≤ length ps
unfolding delete_at
length-delete_at-le i [] = omega arith
length-delete_at-le zero (p ∷ ps) = omega arith
length-delete_at-le (suc i) (p ∷ ps) = omega (arith, length-delete_at-le i ps)

pub length-delete_at :
    (i : ℕ) (ps : List Peer) → i < length ps → suc (length (delete_at i ps)) ≡ length ps
unfolding delete_at
length-delete_at i [] h = elim h [ ]
length-delete_at zero (p ∷ ps) h = refl
length-delete_at (suc i) (p ∷ ps) h = ap suc (length-delete_at i ps (omega arith))

-- ===== src/Peers/Changes/Crash.antt =====
-- `ErasePeers` behind a peer that it erases at once at the end of the list.
use Prim.Native.Nat.{min}
use goed2k.Common.{
  ℕ, zero, suc, ◌+◌, ◌-◌, ◌≤◌, ◌≡◌, refl, ap, ◌∙◌, List, [], ◌∷◌, ◌++◌, true, none, some, length,
  length-append, get_elem?, arith,
}
use goed2k.Peers.{Peer, is_erase_candidate, should_erase_immediately, delete_at}
use goed2k.Peers.Changes.{Erasing, erase_step, erase_loop, erase_peers, may_replace, erased}

get_elem?-past : (ps : List Peer) (i : ℕ) → length ps ≤ i → get_elem? ps i ≡ none
get_elem?-past [] i h = refl
get_elem?-past (p ∷ ps) zero h = elim h [ ]
get_elem?-past (p ∷ ps) (suc i) h = get_elem?-past ps i (omega arith)

get_elem?-last : (ps : List Peer) (pe : Peer) → get_elem? (ps ++ (pe ∷ [])) (length ps) ≡ some pe
get_elem?-last [] pe = refl
get_elem?-last (p ∷ ps) pe = get_elem?-last ps pe

delete_at-last : (ps : List Peer) (pe : Peer) → delete_at (length ps) (ps ++ (pe ∷ [])) ≡ ps
unfolding delete_at
delete_at-last [] pe = refl
delete_at-last (p ∷ ps) pe = ap (◌∷◌ p) (delete_at-last ps pe)

-- The step at the last peer erases it and leaves `roundRobin` two behind the end.
step_last :
    (ps : List Peer) (pe : Peer)
    → is_erase_candidate pe ≡ true
    → should_erase_immediately pe ≡ true
    → erase_step (record { peers = ps ++ (pe ∷ []); candidate = none; round = length ps })
      ≡ some (record { peers = ps; candidate = none; round = length ps + 1 })
unfolding erase_step may_replace
step_last ps pe c i =
    ground (arith, c, i, length-append ps (pe ∷ []), get_elem?-last ps pe, delete_at-last ps pe)

step_behind :
    (ps : List Peer) (s : Erasing) → s.peers ≡ ps → s.round ≡ length ps + 1 → erase_step s ≡ none
unfolding erase_step
step_behind ps s e r =
    ground (arith, e, r, get_elem?-past s.peers s.round (omega (arith, ap length e)))

loop_last :
    (n : ℕ) (ps : List Peer) (pe : Peer)
    → is_erase_candidate pe ≡ true
    → should_erase_immediately pe ≡ true
    → 95 ≤ length ps
    → erase_loop
        (suc (suc n))
        (record { peers = ps ++ (pe ∷ []); candidate = none; round = length ps })
      ≡ none
unfolding erase_loop
loop_last n ps pe c i h = ground (
  arith,
  length-append ps (pe ∷ []),
  step_last ps pe c i,
  step_behind ps (record { peers = ps; candidate = none; round = length ps + 1 }) refl refl,
)

-- For at least 95 peers behind which stands a peer that is an erase candidate and from resume
-- data, ErasePeers that starts at this last peer panics.
pub erase_peers-panics :
    (ps : List Peer) (pe : Peer)
    → is_erase_candidate pe ≡ true
    → should_erase_immediately pe ≡ true
    → 95 ≤ length ps
    → erase_peers (length ps) (ps ++ (pe ∷ [])) ≡ none
unfolding erase_peers
erase_peers-panics [] pe c i h = absurd (omega arith)
erase_peers-panics (p ∷ ps) pe c i h =
    let n = min (length ((p ∷ ps) ++ (pe ∷ []))) 300 in
    let big : n ≡ suc (suc (n - 2)) = omega (arith, length-append (p ∷ ps) (pe ∷ [])) in
    ap erased (
      ap
        (λ k.
          erase_loop k
            (record { peers = (p ∷ ps) ++ (pe ∷ []); candidate = none; round = length (p ∷ ps) }))
        big
      ∙ loop_last (n - 2) (p ∷ ps) pe c i h)

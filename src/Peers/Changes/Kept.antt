-- ===== src/Peers/Changes/Kept.antt =====
-- The list of peers stays in order, with one peer for each endpoint, and within its bound.
use Prim.Native.Nat.{min, bit_or}
use native.Mathlib.Nat.{le_trans}
use goed2k.Common.{
  none-ne-some, some-eq, ℕ, zero, suc, ◌≤◌, ◌<◌, ◌≡◌, refl, sym, List, [], ◌∷◌, Bool, true, false,
  Option, none, some, ltb, leb, ◌==◌, if◌then◌else◌, not, ◌&&◌, length, length-set, get_elem?, set,
  arith, Bool-cases, Option-cases, inl, inr,
}
use goed2k.Peers.{
  Peer, Connection, is_erase_candidate, should_erase_immediately, binary_search, delete_at,
  peers_equal, max_peer_list_size,
}
use goed2k.Peers.Order.{
  IsSorted, insert-IsSorted, delete-IsSorted, endpoints-set, length-insert_at, length-delete_at-le,
}
use goed2k.Peers.Changes.{
  Erasing, erase_this, erase_step, erase_loop, erase_peers, may_replace, Added, insert_peer,
  add_source, add_peer, set_connection, closed_peer, delete_equal, connection_closed, low_watermark,
}

-- In order, and no longer than another list.
abbrev Shorter : List Peer → List Peer → Type 0
Shorter qs ps = IsSorted qs × (length qs ≤ length ps)

erase_this-Shorter :
    (s : Erasing) (current : ℕ) (pe : Peer) (b : Bool)
    → IsSorted s.peers
    → Shorter (erase_this s current pe b).peers s.peers
erase_this-Shorter s current pe false h = (h, omega arith)
erase_this-Shorter s current pe true h = elim (Bool-cases (should_erase_immediately pe)) [
  | inl now ↦ rw now (delete-IsSorted current s.peers h, length-delete_at-le current s.peers)
  | inr later ↦ rw later (h, omega arith)
]

-- A step that does not panic visits some peer.
erase_step-this :
    (s s' : Erasing)
    → erase_step s ≡ some s'
    → (current : ℕ) × (pe : Peer) × (b : Bool) × (s' ≡ erase_this s current pe b)
unfolding erase_step
erase_step-this s s' e =
    let current = if s.round == length s.peers then 0 else s.round in
    elim (Option-cases (get_elem? s.peers current)) [
      | inl no_peer ↦ absurd (none-ne-some (rw (erase_step, no_peer) at e))
      | inr (pe, there) ↦ elim (Bool-cases (is_erase_candidate pe)) [
        | inr not_candidate ↦
            (current, pe, false, some-eq (sym (rw (erase_step, there, not_candidate) at e)))
        | inl candidate ↦ elim (Option-cases (may_replace s.peers s.candidate pe)) [
          | inl panic ↦ absurd (none-ne-some (rw (erase_step, there, candidate, panic) at e))
          | inr (b, q) ↦ (current, pe, b, some-eq (sym (rw (erase_step, there, candidate, q) at e)))
        ]
      ]
    ]

erase_loop-Shorter :
    (n : ℕ) (s s' : Erasing)
    → IsSorted s.peers
    → erase_loop n s ≡ some s'
    → Shorter s'.peers s.peers
unfolding erase_loop
erase_loop-Shorter zero s s' h e = rw (← some-eq e) (h, omega arith)
erase_loop-Shorter (suc n) s s' h e = elim (Bool-cases (ltb (length s.peers) low_watermark)) [
  | inl low ↦ rw (← some-eq (rw low at e)) (h, omega arith)
  | inr high ↦ elim (Option-cases (erase_step s)) [
    | inl panic ↦ absurd (none-ne-some (rw (high, panic) at e))
    | inr (s'', q) ↦
        let (current, pe, b, z) = erase_step-this s s'' q in
        let one : Shorter s''.peers s.peers = rw z (erase_this-Shorter s current pe b h) in
        let more = erase_loop-Shorter n s'' s' one.0 (rw (high, q) at e) in
        (more.0, omega (arith, one.1, more.1))
  ]
]

erase_peers-Shorter :
    (random : ℕ) (ps qs : List Peer) → IsSorted ps → erase_peers random ps ≡ some qs → Shorter qs ps
unfolding erase_peers
erase_peers-Shorter random [] qs h e = rw (← some-eq e) (tt, omega arith)
erase_peers-Shorter random (p ∷ ps) qs h e =
    let s : Erasing = record { peers = p ∷ ps; candidate = none; round = random } in
    let n = min (length (p ∷ ps)) 300 in
    elim (Option-cases (erase_loop n s)) [
      | inl panic ↦ absurd (none-ne-some (rw (erase_peers, panic) at e))
      | inr (s', q) ↦
          let k = erase_loop-Shorter n s s' h q in
          elim (Option-cases s'.candidate) [
            | inl nothing ↦ rw (← some-eq (rw (erase_peers, q, nothing) at e)) k
            | inr (c, found) ↦
                rw (← some-eq (rw (erase_peers, q, found) at e)) (
                  delete-IsSorted c s'.peers k.0,
                  omega (arith, k.1, length-delete_at-le c s'.peers),
                )
          ]
    ]

insert_peer-kept :
    (ps : List Peer) (peer : Peer)
    → IsSorted ps
    → IsSorted (insert_peer ps peer).0 × (length (insert_peer ps peer).0 ≤ suc (length ps))
unfolding insert_peer
insert_peer-kept ps peer h = elim (Bool-cases (binary_search ps peer).1) [
  | inl found ↦ elim (Option-cases (get_elem? ps (binary_search ps peer).0)) [
    | inl nowhere ↦ rw (insert_peer, found, add_source, nowhere) (h, omega arith)
    | inr (pe, q) ↦
        let i = (binary_search ps peer).0 in
        let pe' : Peer = record pe { source_flag = bit_or pe.source_flag peer.source_flag } in
        rw (insert_peer, found, add_source, q)
          (rw (endpoints-set ps i pe pe' q refl) h, omega (arith, length-set ps i pe'))
  ]
  | inr new ↦
      rw (insert_peer, new)
        (
          insert-IsSorted ps peer h new,
          omega (arith, length-insert_at (binary_search ps peer).0 peer ps),
        )
]

-- In order of the endpoints, each of them once, and not too long.
pub record IsValid (ps : List Peer) : Type 0 where
  pub sorted : IsSorted ps
  pub bounded : length ps ≤ max_peer_list_size

pub add_peer-IsValid :
    (random : ℕ) (ps qs : List Peer) (peer : Peer) (r : Added)
    → IsValid ps
    → add_peer random ps peer ≡ some (qs, r)
    → IsValid qs
unfolding add_peer
add_peer-IsValid random ps qs peer r v e = elim (Bool-cases (leb max_peer_list_size (length ps))) [
  | inr room ↦
      let k = insert_peer-kept ps peer v.sorted in
      let z : (insert_peer ps peer).0 ≡ qs = ground (arith, room, e) in
      let small : length ps < max_peer_list_size = ground (arith, room) in
      let b : length (insert_peer ps peer).0 ≤ max_peer_list_size = omega (arith, k.1) in
      record { sorted = rw z at k.0; bounded = rw z at b }
  | inl full ↦ elim (Option-cases (erase_peers random ps)) [
    | inl panic ↦ absurd (none-ne-some (rw (add_peer, full, panic) at e))
    | inr (left, q) ↦
        let k = erase_peers-Shorter random ps left v.sorted q in
        elim (Bool-cases (leb max_peer_list_size (length left))) [
          | inl still ↦
              let z : left ≡ qs = ground (arith, full, q, still, e) in
              record { sorted = rw z at k.0; bounded = rw z at (le_trans k.1 v.bounded) }
          | inr room ↦
              let j = insert_peer-kept left peer k.0 in
              let z : (insert_peer left peer).0 ≡ qs = ground (arith, full, q, room, e) in
              let small : length left < max_peer_list_size = ground (arith, room) in
              let b : length (insert_peer left peer).0 ≤ max_peer_list_size = omega (arith, j.1) in
              record { sorted = rw z at j.0; bounded = rw z at b }
        ]
  ]
]

pub set_connection-IsValid :
    (ps : List Peer) (i : ℕ) (c : Option Connection) → IsValid ps → IsValid (set_connection ps i c)
unfolding set_connection
set_connection-IsValid ps i c v = elim (Option-cases (get_elem? ps i)) [
  | inl nowhere ↦ rw (set_connection, nowhere) v
  | inr (pe, q) ↦
      let pe' : Peer = record pe { connection = c } in
      rw (set_connection, q)
        (record {
          sorted = rw (endpoints-set ps i pe pe' q refl) v.sorted;
          bounded = rw (length-set ps i pe') v.bounded;
        })
]

delete_equal-at : (peer : Peer) (ps : List Peer) → (i : ℕ) × (delete_equal peer ps ≡ delete_at i ps)
unfolding delete_equal delete_at
delete_equal-at peer [] = (0, refl)
delete_equal-at peer (p ∷ ps) = elim (Bool-cases (peers_equal p peer)) [
  | inl here ↦ (0, rw here)
  | inr later ↦ let (i, q) = delete_equal-at peer ps in (suc i, rw (later, q))
]

pub connection_closed-IsValid :
    (ps : List Peer) (i : ℕ) (paused failed : Bool) (session_time : ℕ)
    → IsValid ps
    → IsValid (connection_closed ps i paused failed session_time)
unfolding connection_closed
connection_closed-IsValid ps i paused failed session_time v = elim (Option-cases (get_elem? ps i)) [
  | inl nowhere ↦ rw (connection_closed, nowhere) v
  | inr (pe, q) ↦
      let pe' = closed_peer paused failed session_time pe in
      let same : pe'.endpoint ≡ pe.endpoint = ground arith in
      let s : IsSorted (set ps i pe') = rw (endpoints-set ps i pe pe' q same) v.sorted in
      let n : length (set ps i pe') ≤ max_peer_list_size = rw (length-set ps i pe') v.bounded in
      let (j, d) = delete_equal-at pe' (set ps i pe') in
      elim (Bool-cases (not paused && not pe.connectable)) [
        | inl gone ↦
            rw (connection_closed, q, gone, d)
              (record {
                sorted = delete-IsSorted j (set ps i pe') s;
                bounded = le_trans (length-delete_at-le j (set ps i pe')) n;
              })
        | inr stays ↦ rw (connection_closed, q, stays) (record { sorted = s; bounded = n })
      ]
]

pub erase_peers-IsValid :
    (random : ℕ) (ps qs : List Peer) → IsValid ps → erase_peers random ps ≡ some qs → IsValid qs
erase_peers-IsValid random ps qs v e =
    let k = erase_peers-Shorter random ps qs v.sorted e in
    record { sorted = k.0; bounded = le_trans k.1 v.bounded }

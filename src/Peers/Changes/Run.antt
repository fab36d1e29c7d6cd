-- ===== src/Peers/Changes/Run.antt =====
-- Every history of the list of peers.
use goed2k.Common.{
  none-ne-some, fst_eq, ℕ, ◌≡◌, List, [], Bool, false, Option, some, get_elem?, arith, Bool-cases,
  Option-cases, inl, inr,
}
use goed2k.Wire.Basic.{Endpoint}
use goed2k.Peers.{Peer, Connection, get, new_peer_with_source, is_some}
use goed2k.Peers.Changes.{
  Added, added, known, limit_exceeded, add_peer, set_connection, Attached, new_connection,
  connection_closed, erase_peers, attach_known, attach_added,
}
use goed2k.Peers.Changes.Kept.{
  IsValid, add_peer-IsValid, set_connection-IsValid, connection_closed-IsValid, erase_peers-IsValid,
}

after_add :
    (ep : Endpoint) (c : Connection) (left qs : List Peer) (a : Added) (r : Attached)
    → IsValid left
    → attach_added ep c (left, a) ≡ some (qs, r)
    → IsValid qs
after_add ep c left qs limit_exceeded r v e = rw (fst_eq e) at v
after_add ep c left qs known r v e = rw (fst_eq e) at v
after_add ep c left qs added r v e = elim (Option-cases (get left ep)) [
  | inl nowhere ↦ absurd (none-ne-some (rw (attach_added, nowhere) at e))
  | inr (i, q) ↦
      rw (fst_eq (rw (attach_added, q) at e)) at (set_connection-IsValid left i (some c) v)
]

new_connection-IsValid :
    (random : ℕ) (ps qs : List Peer) (ep : Endpoint) (c : Connection) (r : Attached)
    → IsValid ps
    → new_connection random ps ep c ≡ some (qs, r)
    → IsValid qs
unfolding new_connection
new_connection-IsValid random ps qs ep c r v e = elim (Option-cases (get ps ep)) [
  | inr (i, there) ↦ elim (Option-cases (get_elem? ps i)) [
    | inl nowhere ↦ absurd (none-ne-some (rw (new_connection, there, attach_known, nowhere) at e))
    | inr (pe, q) ↦ elim (Bool-cases (is_some pe.connection)) [
      | inl taken ↦ rw (fst_eq (rw (new_connection, there, attach_known, q, taken) at e)) at v
      | inr free ↦
          rw (fst_eq (rw (new_connection, there, attach_known, q, free) at e)) at
            (set_connection-IsValid ps i (some c) v)
    ]
  ]
  | inl unknown ↦
      let pe = new_peer_with_source ep false 0 in
      elim (Option-cases (add_peer random ps pe)) [
        | inl panic ↦ absurd (none-ne-some (rw (new_connection, unknown, panic) at e))
        | inr ((left, a), q) ↦
            after_add ep c left qs a r (add_peer-IsValid random ps left pe a v q)
              (rw (new_connection, unknown, q) at e)
      ]
]

-- A call that does not panic. A pointer that a connection holds is any slot.
pub data Step (ps : List Peer) : List Peer → Type 0 where
  add :
      {qs : List Peer} (random : ℕ) (peer : Peer) (r : Added)
      → add_peer random ps peer ≡ some (qs, r)
      → Step ps qs
  erase : {qs : List Peer} (random : ℕ) → erase_peers random ps ≡ some qs → Step ps qs
  attach :
      {qs : List Peer} (random : ℕ) (ep : Endpoint) (c : Connection) (r : Attached)
      → new_connection random ps ep c ≡ some (qs, r)
      → Step ps qs
  connect :
      {qs : List Peer} (i : ℕ) (c : Option Connection) → set_connection ps i c ≡ qs → Step ps qs
  close :
      {qs : List Peer} (i : ℕ) (paused failed : Bool) (session_time : ℕ)
      → connection_closed ps i paused failed session_time ≡ qs
      → Step ps qs

pub data Reach (ps : List Peer) : List Peer → Type 0 where
  here : Reach ps ps
  next : {qs rs : List Peer} → Reach ps qs → Step qs rs → Reach ps rs

Step-IsValid : {ps qs : List Peer} → Step ps qs → IsValid ps → IsValid qs
Step-IsValid {ps} {qs} (add random peer r e) v = add_peer-IsValid random ps qs peer r v e
Step-IsValid {ps} {qs} (erase random e) v = erase_peers-IsValid random ps qs v e
Step-IsValid {ps} {qs} (attach random ep c r e) v = new_connection-IsValid random ps qs ep c r v e
Step-IsValid {ps} (connect i c e) v = rw e at (set_connection-IsValid ps i c v)
Step-IsValid {ps} (close i paused failed t e) v =
    rw e at (connection_closed-IsValid ps i paused failed t v)

-- In every state that an empty list of peers reaches by calls that do not panic (AddPeer,
-- ErasePeers, NewConnection, SetConnection and ConnectionClosed for any slot), the peers stand
-- in strictly ascending order of their endpoints, so that no endpoint occurs twice, and there
-- are at most 100.
pub Reach-IsValid : {ps : List Peer} → Reach [] ps → IsValid ps
Reach-IsValid here = record { sorted = tt; bounded = omega arith }
Reach-IsValid (next r s) = Step-IsValid s (Reach-IsValid r)

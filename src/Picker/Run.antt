-- ===== src/Picker/Run.antt =====
-- Every history of a picker's operations, as a transfer calls them.
use goed2k.Common.{ℕ, ◌≡◌, ◌≢◌, arith, List, Bool, Option, some, get_elem?}
use goed2k.BitField.{BitField}
use goed2k.Geometry.{PieceBlock}
use goed2k.Picker.Block.{Peer, PeerSpeed}
use goed2k.Picker.State.{
  PiecePicker, piece_downloading, new_piece_picker, mark_as_finished, mark_as_downloading,
  mark_as_writing, abort_download, download_piece, restore_piece, we_have, restore_have,
  we_have_block,
}
use goed2k.Picker.State.Invariant.{IsConsistent, Keeps, KeepsFst, new_piece_picker-IsConsistent}
use goed2k.Picker.State.Invariant.Blocks.{
  mark_as_finished-IsConsistent, mark_as_downloading-IsConsistent, mark_as_writing-IsConsistent,
  abort_download-IsConsistent, we_have_block-IsConsistent,
}
use goed2k.Picker.State.Invariant.Status.{
  download_piece-IsConsistent, restore_piece-IsConsistent, we_have-IsConsistent,
  restore_have-IsConsistent,
}
use goed2k.Picker.Rounds.{pick_pieces_with_availability, choose_next_piece_with_availability}
use goed2k.Picker.Rounds.Total.{pick_pieces_total}
use goed2k.Picker.Rounds.Choice.{choose-IsConsistent}

-- A call that does not panic. `RestoreHave` is called for a piece that is not being downloaded.
pub data Step (p : PiecePicker) : PiecePicker → Type 0 where
  finished :
      {q : PiecePicker} (b : PieceBlock) (done : Bool)
      → mark_as_finished p b ≡ some (q, done)
      → Step p q
  requested :
      {q : PiecePicker} (b : PieceBlock) (peer : Option Peer) (done : Bool)
      → mark_as_downloading p b peer ≡ some (q, done)
      → Step p q
  writing :
      {q : PiecePicker} (b : PieceBlock) (done : Bool)
      → mark_as_writing p b ≡ some (q, done)
      → Step p q
  aborted :
      {q : PiecePicker} (b : PieceBlock) (peer : Option Peer)
      → abort_download p b peer ≡ some q
      → Step p q
  began : {q : PiecePicker} (i : ℕ) → download_piece p i ≡ some q → Step p q
  chose :
      {q : PiecePicker} (available : Option BitField) (done : Bool)
      → choose_next_piece_with_availability p available ≡ (q, done)
      → Step p q
  picked :
      {q : PiecePicker} (n : ℕ) (peer : Option Peer) (speed : PeerSpeed)
      (available : Option BitField) (rq : List PieceBlock)
      → pick_pieces_with_availability p n peer speed available ≡ some (q, rq)
      → Step p q
  restored : {q : PiecePicker} (i : ℕ) → restore_piece p i ≡ some q → Step p q
  had : {q : PiecePicker} (i : ℕ) → we_have p i ≡ some q → Step p q
  resumed :
      {q : PiecePicker} (i : ℕ)
      → get_elem? p.piece_status i ≢ some piece_downloading
      → restore_have p i ≡ some q
      → Step p q
  had_block : {q : PiecePicker} (b : PieceBlock) → we_have_block p b ≡ some q → Step p q

pub data Reach (p : PiecePicker) : PiecePicker → Type 0 where
  here : Reach p p
  next : {q r : PiecePicker} → Reach p q → Step q r → Reach p r

kept : {o : Option PiecePicker} {q : PiecePicker} → o ≡ some q → Keeps o → IsConsistent q
kept e k = rw e at k

kept_fst :
    {o : Option (PiecePicker × Bool)} {q : PiecePicker} {done : Bool}
    → o ≡ some (q, done)
    → KeepsFst o
    → IsConsistent q
kept_fst e k = rw e at k

Step-IsConsistent : {p q : PiecePicker} → Step p q → IsConsistent p → IsConsistent q
Step-IsConsistent {p} (finished b done e) c = kept_fst e (mark_as_finished-IsConsistent p b c)
Step-IsConsistent {p} (requested b peer done e) c =
    kept_fst e (mark_as_downloading-IsConsistent p b c peer)
Step-IsConsistent {p} (writing b done e) c = kept_fst e (mark_as_writing-IsConsistent p b c)
Step-IsConsistent {p} (aborted b peer e) c = kept e (abort_download-IsConsistent p b c peer)
Step-IsConsistent {p} (began i e) c = kept e (download_piece-IsConsistent p i c)
Step-IsConsistent {p} (chose available done e) c = rw e at (choose-IsConsistent available p c)
Step-IsConsistent {p} {q} (picked n peer speed available rq e) c =
    let (r, e', o) = pick_pieces_total peer speed available p n in
    let z : q ≡ r.0 = ground (arith, e, e') in rw z (o.consistent c)
Step-IsConsistent {p} (restored i e) c = kept e (restore_piece-IsConsistent p i c)
Step-IsConsistent {p} (had i e) c = kept e (we_have-IsConsistent p i c)
Step-IsConsistent {p} (resumed i ne e) c = kept e (restore_have-IsConsistent p i c ne)
Step-IsConsistent {p} (had_block b e) c = kept e (we_have_block-IsConsistent p b c)

-- In every state that a new picker reaches by operations that do not panic (RestoreHave only for
-- a piece that is not being downloaded), each piece with status downloading, and no other index,
-- has exactly one entry in downloadingPieces, each entry has the number of blocks of its piece,
-- and there is one status for each piece.
pub Reach-IsConsistent :
    (n last : ℕ) {p : PiecePicker} → Reach (new_piece_picker n last) p → IsConsistent p
Reach-IsConsistent n last here = new_piece_picker-IsConsistent n last
Reach-IsConsistent n last (next r s) = Step-IsConsistent s (Reach-IsConsistent n last r)

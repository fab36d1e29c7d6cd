-- ===== src/Picker/State/Invariant.antt =====
-- The agreement of `pieceStatus` with `downloadingPieces`, and that each operation keeps it.
pub mod Blocks
pub mod Status
use goed2k.Common.{
  ℕ, zero, suc, ◌+◌, ◌≤◌, ◌<◌, ◌≡◌, ◌≢◌, refl, ap, ◌∙◌, List, [], ◌∷◌, ◌++◌, Bool, true, false,
  ◌&&◌, not, Option, none, some, ltb, ◌==◌, length, length-set, length-replicate, replicate, All,
  All-append, get_elem?, get_elem?-set, set, arith, if◌then◌else◌, Option-cases, inl, inr,
  lt-length_of_get, Bool-cases, ltb→lt,
}
use goed2k.Geometry.{BlocksEnumerator, blocks_in_piece, PieceBlock}
use goed2k.Picker.Block.{Peer, PeerSpeed}
use goed2k.Picker.Piece.{
  DownloadingPiece, new_downloading_piece, finish_block, request_block, write_block,
  abort_downloading,
}
use goed2k.Picker.Piece.Shape.{
  SameShape, finish_block-SameShape, request_block-SameShape, write_block-SameShape,
  abort_downloading-SameShape,
}
use goed2k.Picker.State.{
  PieceState, piece_none, piece_downloading, piece_have, PiecePicker, new_piece_picker, find_piece,
  put_piece, update_piece, start_piece, mark_as_finished, mark_as_downloading, mark_as_writing,
  abort_download, download_piece, drop_piece, restore_piece, we_have, restore_have, we_have_block,
  ◌>>=◌,
}
use goed2k.Picker.State.Pieces.{
  occurrences, IsShaped, SameShape-IsShaped, occurrences-append, occurrences-put, occurrences-drop,
  find_piece-none, find_piece-some, All-put, All-drop,
}

-- How many entries `downloadingPieces` has for a piece of a status; `none` is an index out of range.
abbrev pub entries : Option PieceState → ℕ
entries none = 0
entries (some piece_none) = 0
entries (some piece_downloading) = 1
entries (some piece_have) = 0

-- Each piece that is downloading, and no other index, has an entry in `downloadingPieces`, and only
-- one; each entry has as many blocks as its piece; and there is a status for each piece.
pub record IsConsistent (p : PiecePicker) : Type 0 where
  pub total : length p.piece_status ≡ p.enumerator.piece_count
  pub counted : (i : ℕ) → occurrences i p.downloading_pieces ≡ entries (get_elem? p.piece_status i)
  pub shaped : All (IsShaped p.enumerator) p.downloading_pieces

get_elem?-replicate : (n i : ℕ) → entries (get_elem? (replicate n piece_none) i) ≡ 0
get_elem?-replicate zero i = refl
get_elem?-replicate (suc n) zero = refl
get_elem?-replicate (suc n) (suc i) = get_elem?-replicate n i

pub new_piece_picker-IsConsistent : (n last : ℕ) → IsConsistent (new_piece_picker n last)
unfolding new_piece_picker occurrences
new_piece_picker-IsConsistent n last = record {
  total = length-replicate n piece_none;
  counted = λ i. ground (arith, get_elem?-replicate n i);
  shaped = tt;
}

-- The entry of a piece replaced by one of the same shape.
pub update_piece-IsConsistent :
    (p : PiecePicker) (i : ℕ) (d d' : DownloadingPiece)
    → IsConsistent p
    → find_piece p.downloading_pieces i ≡ some d
    → SameShape d d'
    → IsConsistent (update_piece p d')
update_piece-IsConsistent p i d d' c e s =
    let (_, h, _) = find_piece-some p.enumerator i p.downloading_pieces d e c.shaped in
    record {
      total = c.total;
      counted = λ j. occurrences-put j d' p.downloading_pieces ∙ c.counted j;
      shaped =
          All-put p.enumerator d' p.downloading_pieces (SameShape-IsShaped p.enumerator d d' s h)
            c.shaped;
    }

pub new_piece-IsShaped :
    (n : BlocksEnumerator) (i : ℕ) → IsShaped n (new_downloading_piece i (blocks_in_piece n i))
unfolding new_downloading_piece
new_piece-IsShaped n i = record { count = refl; blocks = length-replicate (blocks_in_piece n i) _ }

-- A piece with no entry is given one.
pub started :
    (p : PiecePicker) (i : ℕ) (d : DownloadingPiece)
    → IsConsistent p
    → i < length p.piece_status
    → occurrences i p.downloading_pieces ≡ 0
    → d.piece_index ≡ i
    → IsShaped p.enumerator d
    → IsConsistent (record p {
      downloading_pieces = p.downloading_pieces ++ (d ∷ []);
      piece_status = set p.piece_status i piece_downloading;
    })
unfolding occurrences
started p i d c h z e s = record {
  total = length-set p.piece_status i piece_downloading ∙ c.total;
  counted = λ j. ground (
    arith,
    c.counted j,
    occurrences-append j p.downloading_pieces (d ∷ []),
    get_elem?-set p.piece_status i j piece_downloading,
  );
  shaped = All-append (IsShaped p.enumerator) p.downloading_pieces (d ∷ []) c.shaped (s, tt);
}

-- A state after its operation, if it did not panic.
abbrev pub Keeps : Option PiecePicker → Type 0
Keeps none = Unit {0}
Keeps (some p) = IsConsistent p

abbrev pub KeepsFst : Option (PiecePicker × Bool) → Type 0
KeepsFst none = Unit {0}
KeepsFst (some (p, done)) = IsConsistent p

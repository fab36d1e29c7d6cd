-- ===== src/Picker/State.antt =====
-- The state of a transfer's pieces: piece_picker.go. `none` is Go's panic at an index out of range.
-- A `*DownloadingPiece` that `GetDownloadingPiece` returns points at the first entry of its piece, so
-- an assignment through it is a replacement of that entry.
pub mod Pieces
pub mod Invariant
use goed2k.Common.{
  ℕ, zero, suc, ◌+◌, ◌-◌, List, [], ◌∷◌, ◌++◌, Bool, true, false, ◌&&◌, ◌||◌, not, Option, none,
  some, ltb, ◌==◌, if◌then◌else◌, length, get_elem?, set, replicate,
}
use goed2k.BitField.{BitField, get_bit}
use goed2k.Geometry.{PieceBlock, BlocksEnumerator, blocks_in_piece}
use goed2k.Picker.Block.{Peer, PeerSpeed, peer_speed_slow}
use goed2k.Picker.Piece.{
  DownloadingPiece, new_downloading_piece, finish_block, request_block, write_block, is_downloaded,
  abort_downloading, pick_blocks, finished_blocks_count, writing_blocks_count,
}

abbrev pub end_game_dp_limit : ℕ
end_game_dp_limit = 4

pub data PieceState : Type 0 where
  piece_none piece_downloading piece_have : PieceState

pub record PiecePicker : Type 0 where
  pub enumerator : BlocksEnumerator
  pub piece_status : List PieceState
  pub downloading_pieces : List DownloadingPiece

infixl 5 ◌>>=◌
abbrev pub ◌>>=◌ {ℓ κ} : {A : Type ℓ} {B : Type κ} → Option A → (A → Option B) → Option B
none >>= f = none
some a >>= f = f a

abbrev pub is_none : PieceState → Bool
is_none piece_none = true
is_none piece_downloading = false
is_none piece_have = false

abbrev pub is_have : PieceState → Bool
is_have piece_have = true
is_have piece_none = false
is_have piece_downloading = false

unfoldable pub new_piece_picker : ℕ → ℕ → PiecePicker
new_piece_picker piece_count blocks_in_last_piece = record {
  enumerator = record { piece_count = piece_count; blocks_in_last_piece = blocks_in_last_piece };
  piece_status = replicate piece_count piece_none;
  downloading_pieces = [];
}

-- The number of pieces that a transfer has.
unfoldable pub num_have : List PieceState → ℕ
num_have [] = 0
num_have (s ∷ ss) = if is_have s then num_have ss + 1 else num_have ss

unfoldable pub find_piece : List DownloadingPiece → ℕ → Option DownloadingPiece
find_piece [] index = none
find_piece (d ∷ ds) index = if d.piece_index == index then some d else find_piece ds index

abbrev pub get_downloading_piece : PiecePicker → ℕ → Option DownloadingPiece
get_downloading_piece p index = find_piece p.downloading_pieces index

-- The first entry of a piece replaced.
unfoldable pub put_piece : DownloadingPiece → List DownloadingPiece → List DownloadingPiece
put_piece d [] = []
put_piece d (e ∷ es) = if e.piece_index == d.piece_index then d ∷ es else e ∷ put_piece d es

abbrev pub update_piece : PiecePicker → DownloadingPiece → PiecePicker
update_piece p d = record p { downloading_pieces = put_piece d p.downloading_pieces }

unfoldable pub mark_as_finished : PiecePicker → PieceBlock → Option (PiecePicker × Bool)
unfolding find_piece put_piece
mark_as_finished p b = elim (get_downloading_piece p b.piece_index) [
  | none ↦ some (p, false)
  | some d ↦ do d' ← finish_block d b.piece_block; some (update_piece p d', true)
]

unfoldable pub mark_as_downloading :
    PiecePicker → PieceBlock → Option Peer → Option (PiecePicker × Bool)
unfolding find_piece put_piece
mark_as_downloading p b peer = elim (get_downloading_piece p b.piece_index) [
  | none ↦ some (p, false)
  | some d ↦ do
    d' ← request_block d b.piece_block peer peer_speed_slow
    some (update_piece p d', true)
]

unfoldable pub mark_as_writing : PiecePicker → PieceBlock → Option (PiecePicker × Bool)
unfolding find_piece put_piece
mark_as_writing p b = elim (get_downloading_piece p b.piece_index) [
  | none ↦ some (p, false)
  | some d ↦ do (d', done) ← write_block d b.piece_block; some (update_piece p d', done)
]

unfoldable pub abort_download : PiecePicker → PieceBlock → Option Peer → Option PiecePicker
unfolding find_piece put_piece
abort_download p b peer = elim (get_downloading_piece p b.piece_index) [
  | none ↦ some p
  | some d ↦ do d' ← abort_downloading d b.piece_block peer; some (update_piece p d')
]

-- The number of finished and writing blocks against the number of blocks of the piece.
unfoldable pub is_piece_finished : PiecePicker → ℕ → Option Bool
unfolding find_piece
is_piece_finished p index = elim (get_elem? p.piece_status index) [
  | none ↦ none
  | some piece_none ↦ some false
  | some piece_have ↦ some true
  | some piece_downloading ↦ elim (get_downloading_piece p index) [
    | none ↦ some false
    | some d ↦ some (d.blocks_count == finished_blocks_count d + writing_blocks_count d)
  ]
]

unfoldable pub is_block_downloaded : PiecePicker → PieceBlock → Option Bool
unfolding is_piece_finished find_piece
is_block_downloaded p b = do
  finished ← is_piece_finished p b.piece_index
  if finished then some true else elim (get_downloading_piece p b.piece_index) [
    | none ↦ some false
    | some d ↦ is_downloaded d b.piece_block
  ]

-- The two statements by which a piece begins to be downloaded.
abbrev pub start_piece : PiecePicker → ℕ → PiecePicker
start_piece p index = record p {
  downloading_pieces =
      p.downloading_pieces
      ++ (new_downloading_piece index (blocks_in_piece p.enumerator index) ∷ []);
  piece_status = set p.piece_status index piece_downloading;
}

unfoldable pub download_piece : PiecePicker → ℕ → Option PiecePicker
download_piece p index = elim (get_elem? p.piece_status index) [
  | none ↦ none
  | some piece_have ↦ some p
  | some piece_none ↦ some (start_piece p index)
  | some piece_downloading ↦ some p
]

-- The loop that keeps the entries of other pieces.
unfoldable pub drop_piece : ℕ → List DownloadingPiece → List DownloadingPiece
drop_piece index [] = []
drop_piece index (d ∷ ds) =
    if d.piece_index == index then drop_piece index ds else d ∷ drop_piece index ds

-- An assignment to an entry of `pieceStatus`.
abbrev set_status : PiecePicker → ℕ → PieceState → Option PiecePicker
set_status p index state =
    if ltb index (length p.piece_status)
    then some (record p { piece_status = set p.piece_status index state })
    else none

unfoldable pub restore_piece : PiecePicker → ℕ → Option PiecePicker
unfolding find_piece drop_piece
restore_piece p index = elim (get_downloading_piece p index) [
  | none ↦ set_status p index piece_none
  | some d ↦
      set_status (record p { downloading_pieces = drop_piece index p.downloading_pieces }) index
        piece_none
]

unfoldable pub we_have : PiecePicker → ℕ → Option PiecePicker
unfolding drop_piece
we_have p index =
    set_status (record p { downloading_pieces = drop_piece index p.downloading_pieces }) index
      piece_have

unfoldable pub restore_have : PiecePicker → ℕ → Option PiecePicker
restore_have p index = set_status p index piece_have

unfoldable pub have_piece : PiecePicker → ℕ → Option Bool
have_piece p index = elim (get_elem? p.piece_status index) [
  | none ↦ none
  | some s ↦ some (is_have s)
]

unfoldable pub we_have_block : PiecePicker → PieceBlock → Option PiecePicker
unfolding find_piece put_piece
we_have_block p b = elim (get_downloading_piece p b.piece_index) [
  | some d ↦ do d' ← finish_block d b.piece_block; some (update_piece p d')
  | none ↦
      let d = new_downloading_piece b.piece_index (blocks_in_piece p.enumerator b.piece_index) in
      let started = record p { downloading_pieces = p.downloading_pieces ++ (d ∷ []) } in
      do
        q ← set_status started b.piece_index piece_downloading
        d' ← finish_block d b.piece_block
        some (record q { downloading_pieces = p.downloading_pieces ++ (d' ∷ []) })
]

-- ===== src/Picker/Rounds.antt =====
-- The choice of blocks over all pieces: `PickPiecesWithAvailability` of piece_picker.go and what it calls.
pub mod Bounds
pub mod Choice
pub mod Total
use goed2k.Common.{
  ℕ, zero, suc, ◌+◌, ◌-◌, List, [], ◌∷◌, ◌++◌, Bool, true, false, ◌&&◌, ◌||◌, not, Option, none,
  some, ltb, ◌==◌, if◌then◌else◌, length, get_elem?, set, replicate,
}
use goed2k.BitField.{BitField, get_bit}
use goed2k.Geometry.{PieceBlock}
use goed2k.Picker.Block.{Peer, PeerSpeed, peer_speed_slow}
use goed2k.Picker.Piece.{DownloadingPiece, pick_blocks}
use goed2k.Picker.State.{PieceState, PiecePicker, is_none, start_piece, num_have, end_game_dp_limit}

-- A bit field of a peer that is not known, or empty, allows every piece.
unfoldable pub piece_allowed : Option BitField → ℕ → Bool
piece_allowed none index = true
piece_allowed (some available) index = if available.size == 0 then true else get_bit available index

-- The first piece from `i` on that was not begun and is allowed. `roundRobin` starts at 0 and falls
-- behind the end only when the loop is over, so it is the loop's own counter.
unfoldable pub find_next : Option BitField → ℕ → List PieceState → Option ℕ
unfolding piece_allowed
find_next available i [] = none
find_next available i (s ∷ ss) =
    if is_none s && piece_allowed available i then some i else find_next available (i + 1) ss

unfoldable pub choose_next_piece_with_availability :
    PiecePicker → Option BitField → PiecePicker × Bool
unfolding find_next
choose_next_piece_with_availability p available = elim (find_next available 0 p.piece_status) [
  | none ↦ (p, false)
  | some i ↦ (start_piece p i, true)
]

-- The same loop with no test of availability.
unfoldable pub choose_next_piece : PiecePicker → PiecePicker × Bool
unfolding choose_next_piece_with_availability
choose_next_piece p = choose_next_piece_with_availability p none

-- Pieces after a round of picking, and what the round appended to `rq`.
abbrev pub Round : Type 0
Round = List DownloadingPiece × List PieceBlock

abbrev pub prepend_piece : DownloadingPiece → List PieceBlock → Round → Round
prepend_piece d rq (ds, rest) = (d ∷ ds, rq ++ rest)

-- The loop of `addDownloadingBlocks` with `left` blocks still to take (`orderLength - res`). It
-- stops when nothing is left to take, which it tests after a piece, not before the first.
unfoldable pub add_downloading_blocks :
    List DownloadingPiece → ℕ → Option Peer → PeerSpeed → Bool → Option BitField → Round
unfolding piece_allowed pick_blocks
add_downloading_blocks [] left peer speed end_game available = ([], [])
add_downloading_blocks (d ∷ ds) left peer speed end_game available =
    let skipped =
      prepend_piece d [] (add_downloading_blocks ds left peer speed end_game available) in
    let (d', rq) = pick_blocks d left peer speed end_game in
    let stopped : Round = (d' ∷ ds, rq) in
    let rest =
      prepend_piece d' rq
        (add_downloading_blocks ds (left - length rq) peer speed end_game available) in
    if not (piece_allowed available d.piece_index)
    then skipped
    else (if length rq == left then stopped else rest)

unfoldable pub is_end_game : PiecePicker → Bool
unfolding num_have
is_end_game p =
    (length p.piece_status == num_have p.piece_status + length p.downloading_pieces)
    || ltb end_game_dp_limit (length p.downloading_pieces)

-- One round of `PickPiecesWithAvailability`: the pieces that are being downloaded, once for blocks
-- that are free and, for a peer that is not slow, once more in the end game.
unfoldable pub pick_downloading :
    PiecePicker → ℕ → Option Peer → PeerSpeed → Option BitField → PiecePicker × List PieceBlock
unfolding add_downloading_blocks is_end_game
pick_downloading p n peer speed available =
    let (ds, rq) = add_downloading_blocks p.downloading_pieces n peer speed false available in
    let q : PiecePicker = record p { downloading_pieces = ds } in
    let (ds', rq') = add_downloading_blocks ds (n - length rq) peer speed true available in
    if not (speed == peer_speed_slow) && (ltb (length rq) n && is_end_game q)
    then (record p { downloading_pieces = ds' }, rq ++ rq')
    else (q, rq)

abbrev pub prepend_order :
    List PieceBlock
    → Option (PiecePicker × List PieceBlock)
    → Option (PiecePicker × List PieceBlock)
prepend_order rq none = none
prepend_order rq (some (p, rest)) = some (p, rq ++ rest)

-- `PickPiecesWithAvailability`, with fuel for its recursion; `none` means that the fuel ran out.
unfoldable pub pick_pieces_fuel :
    ℕ
    → PiecePicker
    → ℕ
    → Option Peer
    → PeerSpeed
    → Option BitField
    → Option (PiecePicker × List PieceBlock)
unfolding pick_downloading choose_next_piece_with_availability
pick_pieces_fuel zero p n peer speed available = none
pick_pieces_fuel (suc fuel) p n peer speed available =
    let (q, rq) = pick_downloading p n peer speed available in
    let (r, chosen) = choose_next_piece_with_availability q available in
    let again = prepend_order rq (pick_pieces_fuel fuel r (n - length rq) peer speed available) in
    if ltb (length rq) n then (if chosen then again else some (q, rq)) else some (q, rq)

unfoldable pub num_none : List PieceState → ℕ
num_none [] = 0
num_none (s ∷ ss) = if is_none s then num_none ss + 1 else num_none ss

-- Each recursive call has begun a piece that was not, so one call more than there are such pieces is enough.
unfoldable pub pick_pieces_with_availability :
    PiecePicker
    → ℕ
    → Option Peer
    → PeerSpeed
    → Option BitField
    → Option (PiecePicker × List PieceBlock)
unfolding pick_pieces_fuel num_none
pick_pieces_with_availability p = pick_pieces_fuel (num_none p.piece_status + 1) p

unfoldable pub pick_pieces :
    PiecePicker → ℕ → Option Peer → PeerSpeed → Option (PiecePicker × List PieceBlock)
unfolding pick_pieces_with_availability
pick_pieces p n peer speed = pick_pieces_with_availability p n peer speed none

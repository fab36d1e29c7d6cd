-- ===== src/Picker/Examples.antt =====
-- Runs of the picker, and the theorems at concrete inputs.
use goed2k.Common.{◌≡◌, ◌<◌, ◌≤◌, refl, List, [], ◌∷◌, true, false, none, some, length}
use goed2k.Geometry.{PieceBlock}
use goed2k.Picker.Block.{state_none, new_block, is_free, request, write, finish, abort, abort-write}
use goed2k.Picker.Piece.{
  DownloadingPiece, new_downloading_piece, pick_blocks, pick_loop, is_wanted, count_state,
}
use goed2k.Picker.Piece.Picks.{pick_blocks-wanted, wanted}
use goed2k.Picker.Piece.Greedy.{pick_blocks-greedy}
use goed2k.Picker.State.{PiecePicker, new_piece_picker, we_have, piece_have, piece_none, drop_piece}
use goed2k.Picker.State.Invariant.{IsConsistent}
use goed2k.Picker.Rounds.{pick_pieces_with_availability}
use goed2k.Picker.Rounds.Total.{Outcome, pick_pieces_total}
use goed2k.Picker.Run.{here, next, had, Reach-IsConsistent}

abbrev three_blocks : DownloadingPiece
unfolding new_downloading_piece
three_blocks = new_downloading_piece 7 3

two_picked :
    (pick_blocks three_blocks 2 (some 1) 0 false).1
    ≡ record { piece_index = 7; piece_block = 0 } ∷ record { piece_index = 7; piece_block = 1 } ∷ []
unfolding pick_blocks pick_loop is_wanted request new_downloading_piece
two_picked = refl

-- Block 1 of the three was requested by peer 1.
abbrev half_requested : DownloadingPiece
unfolding pick_blocks pick_loop is_wanted request new_downloading_piece count_state
half_requested = (pick_blocks three_blocks 1 (some 1) 0 false).0

abort-write_example :
    (is_free (abort (write new_block) (some 4)) ≡ true)
    × (is_free (abort (finish (write new_block)) (some 4)) ≡ true)
abort-write_example = abort-write new_block (some 4)

pick_blocks-wanted_example :
    (pick_blocks three_blocks 2 (some 1) 0 false).1
    ≡ record { piece_index = 7; piece_block = 0 } ∷ record { piece_index = 7; piece_block = 1 } ∷ []
unfolding wanted new_downloading_piece
pick_blocks-wanted_example = pick_blocks-wanted three_blocks 2 (some 1) 0 false

pick_blocks-greedy_example :
    let p = pick_blocks three_blocks 5 (some 1) 0 false in
    (length p.1 ≤ 5)
    × (count_state state_none p.0.blocks ≤ count_state state_none three_blocks.blocks)
    × (length p.1 < 5 → count_state state_none p.0.blocks ≡ 0)
pick_blocks-greedy_example = pick_blocks-greedy three_blocks 5 (some 1) 0 false

abbrev small_picker : PiecePicker
unfolding new_piece_picker
small_picker = new_piece_picker 2 3

pick_pieces_total_example :
    (r : PiecePicker × List PieceBlock) × (pick_pieces_with_availability small_picker 3
        (some 1)
        2
        none
      ≡ some r)
    × Outcome (some 1) 2 none small_picker 3 r
pick_pieces_total_example = pick_pieces_total (some 1) 2 none small_picker 3

Reach-IsConsistent_example :
    IsConsistent (record small_picker { piece_status = piece_have ∷ piece_none ∷ [] })
unfolding new_piece_picker we_have drop_piece
Reach-IsConsistent_example = Reach-IsConsistent 2 3 (next here (had 0 refl))

-- ===== src/Picker/Piece.antt =====
-- A piece that is being downloaded: the DownloadingPiece of downloading_piece.go. `none` is Go's
-- panic at an index out of range.
pub mod Shape
pub mod Greedy
pub mod Picks
use goed2k.Common.{
  ℕ, zero, suc, ◌+◌, ◌-◌, List, [], ◌∷◌, ◌++◌, Bool, true, false, ◌&&◌, ◌||◌, not, Option, none,
  some, ltb, ◌==◌, if◌then◌else◌, length, get_elem?, set, replicate,
}
use goed2k.Geometry.{PieceBlock}
use goed2k.Picker.Block.{
  BlockState, state_requested, state_writing, state_finished, Peer, PeerSpeed, DownloadingBlock,
  new_block, state_eq, peer_eq, is_requested, is_free, is_finished, is_writing, is_below_two_int16,
  request, write, finish, abort,
}

pub record DownloadingPiece : Type 0 where
  pub piece_index : ℕ
  pub blocks_count : ℕ
  pub blocks : List DownloadingBlock

unfoldable pub new_downloading_piece : ℕ → ℕ → DownloadingPiece
new_downloading_piece piece_index blocks_count = record {
  piece_index = piece_index;
  blocks_count = blocks_count;
  blocks = replicate blocks_count new_block;
}

-- How many blocks are in a state.
unfoldable pub count_state : BlockState → List DownloadingBlock → ℕ
count_state state [] = 0
count_state state (b ∷ bs) =
    if state_eq b.state state then count_state state bs + 1 else count_state state bs

abbrev pub calculate_state_blocks : DownloadingPiece → BlockState → ℕ
calculate_state_blocks d state = count_state state d.blocks

abbrev pub finished_blocks_count : DownloadingPiece → ℕ
finished_blocks_count d = calculate_state_blocks d state_finished

abbrev pub downloading_blocks_count : DownloadingPiece → ℕ
downloading_blocks_count d = calculate_state_blocks d state_requested

abbrev pub writing_blocks_count : DownloadingPiece → ℕ
writing_blocks_count d = calculate_state_blocks d state_writing

abbrev pub downloaded_count : DownloadingPiece → ℕ
downloaded_count d = writing_blocks_count d + finished_blocks_count d

abbrev pub total_blocks : DownloadingPiece → ℕ
total_blocks d = length d.blocks

-- An assignment to one block.
abbrev change :
    (DownloadingBlock → DownloadingBlock) → DownloadingPiece → ℕ → Option DownloadingPiece
change f d i = elim (get_elem? d.blocks i) [
  | none ↦ none
  | some b ↦ some (record d { blocks = set d.blocks i (f b) })
]

unfoldable pub finish_block : DownloadingPiece → ℕ → Option DownloadingPiece
finish_block = change finish

unfoldable pub request_block :
    DownloadingPiece → ℕ → Option Peer → PeerSpeed → Option DownloadingPiece
request_block d i p speed = change (λ b. request b p speed) d i

unfoldable pub write_block : DownloadingPiece → ℕ → Option (DownloadingPiece × Bool)
write_block d i = elim (get_elem? d.blocks i) [
  | none ↦ none
  | some b ↦ some (
      if is_free b || is_requested b
      then (record d { blocks = set d.blocks i (write b) }, true)
      else (d, false))
]

unfoldable pub is_downloaded : DownloadingPiece → ℕ → Option Bool
is_downloaded d i = elim (get_elem? d.blocks i) [
  | none ↦ none
  | some b ↦ some (is_finished b || is_writing b)
]

unfoldable pub abort_downloading : DownloadingPiece → ℕ → Option Peer → Option DownloadingPiece
abort_downloading d i p = change (λ b. abort b p) d i

-- May `peer` take block `b`? A free block always; in the end game also one that is requested by one
-- slower downloader, which is another peer.
unfoldable pub is_wanted : DownloadingBlock → Option Peer → PeerSpeed → Bool → Bool
is_wanted b peer speed end_game =
    is_free b
    || (end_game
        && (is_requested b
            && (is_below_two_int16 b.downloaders_count
                && (ltb b.speed speed && not (peer_eq b.last_downloader peer)))))

-- The blocks after a pick, and what it appends to `rq`.
abbrev pub Picked : Type 0
Picked = List DownloadingBlock × List PieceBlock

-- A block in front, and the requests in front.
abbrev pub prepend : DownloadingBlock → List PieceBlock → Picked → Picked
prepend b rq (bs, rest) = (b ∷ bs, rq ++ rest)

-- The loop of `PickBlocks` from block `i` on, with `left` blocks still to take (`orderLength - res`).
unfoldable pub pick_loop :
    ℕ → ℕ → List DownloadingBlock → ℕ → Option Peer → PeerSpeed → Bool → Picked
pick_loop piece i [] left peer speed end_game = ([], [])
pick_loop piece i (b ∷ bs) zero peer speed end_game = (b ∷ bs, [])
pick_loop piece i (b ∷ bs) (suc left) peer speed end_game =
    let taken =
      prepend (request b peer speed) (record { piece_index = piece; piece_block = i } ∷ [])
        (pick_loop piece (i + 1) bs left peer speed end_game) in
    let passed = prepend b [] (pick_loop piece (i + 1) bs (suc left) peer speed end_game) in
    if is_wanted b peer speed end_game then taken else passed

abbrev with_blocks : DownloadingPiece → Picked → DownloadingPiece × List PieceBlock
with_blocks d (bs, rq) = (record d { blocks = bs }, rq)

-- The piece after `PickBlocks`, and what was appended to `rq`; the number returned is its length.
unfoldable pub pick_blocks :
    DownloadingPiece → ℕ → Option Peer → PeerSpeed → Bool → DownloadingPiece × List PieceBlock
unfolding count_state
pick_blocks d order_length peer speed end_game =
    if not end_game && (downloading_blocks_count d == total_blocks d)
    then (d, [])
    else with_blocks d (pick_loop d.piece_index 0 d.blocks order_length peer speed end_game)

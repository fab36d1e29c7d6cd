-- ===== src/Picker/Piece/Greedy.antt =====
-- How many blocks `pick_blocks` takes, and what it leaves free.
use goed2k.Common.{ℕ, zero, suc, ◌+◌, ◌≤◌, ◌<◌, ◌≡◌, List, [], ◌∷◌, Bool, Option, length, arith}
use goed2k.Picker.Block.{state_none, state_requested, Peer, PeerSpeed, DownloadingBlock, request}
use goed2k.Picker.Piece.{DownloadingPiece, count_state, is_wanted, pick_loop, pick_blocks}

-- The loop takes what is asked for or leaves no block free, and it frees none.
pick_loop-greedy :
    (piece i : ℕ) (bs : List DownloadingBlock) (left : ℕ) (peer : Option Peer) (speed : PeerSpeed)
    (eg : Bool)
    → let p = pick_loop piece i bs left peer speed eg in
      (length p.1 ≤ left)
      × (count_state state_none p.0 ≤ count_state state_none bs)
      × (length p.1 < left → count_state state_none p.0 ≡ 0)
unfolding pick_loop count_state is_wanted request
pick_loop-greedy piece i [] left peer speed eg = ground arith
pick_loop-greedy piece i (b ∷ bs) zero peer speed eg = ground arith
pick_loop-greedy piece i (b ∷ bs) (suc left) peer speed eg =
    let later = pick_loop-greedy piece (i + 1) bs left peer speed eg in
    let later' = pick_loop-greedy piece (i + 1) bs (suc left) peer speed eg in
    ground (arith, later.0, later.1, later.2, later'.0, later'.1, later'.2)

-- Blocks that are all requested are not free.
count_state_full :
    (bs : List DownloadingBlock)
    → (count_state state_requested bs + count_state state_none bs ≤ length bs)
unfolding count_state
count_state_full [] = omega arith
count_state_full (b ∷ bs) = ground (arith, count_state_full bs)

-- PickBlocks takes at most the ordered number of blocks, makes no block free, and if it takes
-- fewer than ordered leaves no block free.
pub pick_blocks-greedy :
    (d : DownloadingPiece) (n : ℕ) (peer : Option Peer) (speed : PeerSpeed) (eg : Bool)
    → let p = pick_blocks d n peer speed eg in
      (length p.1 ≤ n)
      × (count_state state_none p.0.blocks ≤ count_state state_none d.blocks)
      × (length p.1 < n → count_state state_none p.0.blocks ≡ 0)
unfolding pick_blocks
pick_blocks-greedy d n peer speed eg =
    let later = pick_loop-greedy d.piece_index 0 d.blocks n peer speed eg in
    ground (arith, later.0, later.1, later.2, count_state_full d.blocks)

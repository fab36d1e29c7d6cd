-- ===== src/Picker/Piece/Shape.antt =====
-- What no operation on a piece changes: its index, its number of blocks, and the length of its list.
use goed2k.Common.{
  ℕ, zero, suc, ◌+◌, ◌≡◌, refl, List, [], ◌∷◌, Bool, Option, some, length, length-set, arith,
}
use goed2k.Picker.Block.{Peer, PeerSpeed, DownloadingBlock}
use goed2k.Picker.Piece.{
  DownloadingPiece, pick_loop, pick_blocks, finish_block, request_block, write_block,
  abort_downloading,
}

pub record SameShape (d e : DownloadingPiece) : Type 0 where
  pub index : e.piece_index ≡ d.piece_index
  pub count : e.blocks_count ≡ d.blocks_count
  pub blocks : length e.blocks ≡ length d.blocks

module _ (d : DownloadingPiece) (i : ℕ) {e : DownloadingPiece} where
  pub finish_block-SameShape : finish_block d i ≡ some e → SameShape d e
  unfolding finish_block
  finish_block-SameShape h = grind (arith, length-set)

  pub abort_downloading-SameShape :
      (p : Option Peer) → abort_downloading d i p ≡ some e → SameShape d e
  unfolding abort_downloading
  abort_downloading-SameShape p h = grind (arith, length-set)

  pub request_block-SameShape :
      (p : Option Peer) (speed : PeerSpeed) → request_block d i p speed ≡ some e → SameShape d e
  unfolding request_block
  request_block-SameShape p speed h = grind (arith, length-set)

  pub write_block-SameShape : (done : Bool) → write_block d i ≡ some (e, done) → SameShape d e
  unfolding write_block
  write_block-SameShape done h = grind (arith, length-set)

length-pick_loop :
    (piece i : ℕ) (bs : List DownloadingBlock) (left : ℕ) (peer : Option Peer) (speed : PeerSpeed)
    (eg : Bool)
    → length (pick_loop piece i bs left peer speed eg).0 ≡ length bs
unfolding pick_loop
length-pick_loop piece i [] left peer speed eg = refl
length-pick_loop piece i (b ∷ bs) zero peer speed eg = refl
length-pick_loop piece i (b ∷ bs) (suc left) peer speed eg = ground (
  arith,
  length-pick_loop piece (i + 1) bs left peer speed eg,
  length-pick_loop piece (i + 1) bs (suc left) peer speed eg,
)

pub pick_blocks-SameShape :
    (d : DownloadingPiece) (n : ℕ) (peer : Option Peer) (speed : PeerSpeed) (eg : Bool)
    → SameShape d (pick_blocks d n peer speed eg).0
unfolding pick_blocks
pick_blocks-SameShape d n peer speed eg =
    ground (arith, length-pick_loop d.piece_index 0 d.blocks n peer speed eg)

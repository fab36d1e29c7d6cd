-- ===== src/Geometry/Block.antt =====
-- Blocks as numbers and as ranges of bytes.
use goed2k.Common.{ℕ, ◌/◌, ◌≤◌, ◌<◌, ◌≡◌, ◌↔◌, arith}
use goed2k.Common.Int.{pos, negsuc}
use goed2k.Geometry.{
  PieceBlock, block_size, blocks_per_piece, blocks_offset, make_piece_block, range, compare_blocks,
}

-- A block index that a piece can hold.
pub record IsBlock (b : PieceBlock) : Type 0 where
  pub fits : b.piece_block < blocks_per_piece

pub make_piece_block-IsBlock : (offset : ℕ) → IsBlock (make_piece_block offset)
unfolding make_piece_block
make_piece_block-IsBlock offset = omega arith

-- For an offset in the file, the range of the block that MakePieceBlock gives contains the
-- offset and ends in the file, and the number of the block is the offset over the block size.
pub range-make_piece_block :
    (offset size : ℕ)
    → offset < size
    → let r = range (make_piece_block offset) size in
      (r.left ≤ offset)
      × (offset < r.right)
      × (r.right ≤ size)
      × (blocks_offset (make_piece_block offset) ≡ offset / block_size)
unfolding make_piece_block range blocks_offset
range-make_piece_block offset size h = ground arith

-- Two blocks with the same number are one block.
pub blocks_offset-injective :
    (a b : PieceBlock) → IsBlock a → IsBlock b → blocks_offset a ≡ blocks_offset b → a ≡ b
unfolding blocks_offset
blocks_offset-injective a b h k e = ground arith

-- MakePieceBlock of the left end of the range of a block is the block, if the block index fits a
-- piece.
pub make_piece_block-range :
    (b : PieceBlock) (size : ℕ) → IsBlock b → make_piece_block (range b size).left ≡ b
unfolding make_piece_block range
make_piece_block-range b size h = ground arith

-- For two blocks whose indexes fit a piece, Compare is -1, 0 or 1 exactly when the range of the
-- first begins before that of the second, when the blocks are equal, and when it begins after.
pub compare_blocks-range :
    (a b : PieceBlock) (size : ℕ)
    → IsBlock a
    → IsBlock b
    → ((compare_blocks a b ≡ negsuc 0) ↔ ((range a size).left < (range b size).left))
      × ((compare_blocks a b ≡ pos 0) ↔ (a ≡ b))
      × ((compare_blocks a b ≡ pos 1) ↔ ((range b size).left < (range a size).left))
unfolding compare_blocks blocks_offset range
compare_blocks-range a b size h k = ground arith

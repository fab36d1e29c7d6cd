-- ===== src/Geometry.antt =====
-- Sizes and positions of pieces and blocks in a file: data/piece_block.go, constants.go and
-- blocks_enumerator.go. Indexes, offsets and sizes are the non-negative values of Go's `int` and
-- `int64`; a difference that can be negative is a `ℤ`.
pub mod Block
pub mod Request
mod Examples
use goed2k.Common.{ℕ, suc, ◌+◌, ◌*◌, ◌/◌, ◌%◌, Bool, ltb, ◌==◌, if◌then◌else◌, arith}
use goed2k.Common.Int.{ℤ, pos, negsuc, sub_ℕ}

abbrev pub piece_size : ℕ
piece_size = 9728000

abbrev pub block_size : ℕ
block_size = 190 * 1024

abbrev pub blocks_per_piece : ℕ
blocks_per_piece = piece_size / block_size

pub record Range : Type 0 where
  pub left : ℕ
  pub right : ℕ

pub record PieceBlock : Type 0 where
  pub piece_index : ℕ
  pub piece_block : ℕ

unfoldable pub blocks_offset : PieceBlock → ℕ
blocks_offset b = b.piece_index * blocks_per_piece + b.piece_block

pub make_piece_block : ℕ → PieceBlock
make_piece_block offset = record {
  piece_index = offset / piece_size;
  piece_block = offset % piece_size / block_size;
}

-- The `min` of data/piece_block.go.
abbrev pub min_size : ℕ → ℕ → ℕ
min_size a b = if ltb a b then a else b

unfoldable pub range : PieceBlock → ℕ → Range
range b size =
    let begin = b.piece_index * piece_size + b.piece_block * block_size in
    let normal_end = b.piece_index * piece_size + (b.piece_block + 1) * block_size in
    record { left = begin; right = min_size (begin + block_size) (min_size normal_end size) }

-- `Size` is negative for a block that begins behind the end of the file.
unfoldable pub block_bytes : PieceBlock → ℕ → ℤ
block_bytes b total_size = let r = range b total_size in sub_ℕ r.right r.left

pub compare_blocks : PieceBlock → PieceBlock → ℤ
compare_blocks p other =
    if ltb (blocks_offset p) (blocks_offset other)
    then negsuc 0
    else (if ltb (blocks_offset other) (blocks_offset p) then pos 1 else pos 0)

pub record BlocksEnumerator : Type 0 where
  pub piece_count : ℕ
  pub blocks_in_last_piece : ℕ

-- The test is `pieceIndex == pieceCount - 1`; with no piece at all it never holds.
unfoldable pub blocks_in_piece : BlocksEnumerator → ℕ → ℕ
blocks_in_piece e piece_index =
    if suc piece_index == e.piece_count then e.blocks_in_last_piece else blocks_per_piece

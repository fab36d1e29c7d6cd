-- ===== src/Storage/Examples.antt =====
-- Runs of the managers, and the theorems at concrete inputs.
use goed2k.Common.{
  ℕ, ◌+◌, ◌*◌, ◌≡◌, ◌<◌, refl, List, [], ◌∷◌, none, some, inl, inr, arith, leb, ltb, ◌&&◌,
  if◌then◌else◌, get_or, zero, suc,
}
use goed2k.Geometry.{PieceBlock, BlocksEnumerator, blocks_in_piece, blocks_offset, block_size}
use goed2k.Storage.Blocks.{Buffer, new_block_manager, register_block, hash_from, hash_run, concat}
use goed2k.Storage.Blocks.Whole.{Occurs}
use goed2k.Storage.Pieces.{
  PieceManager, new_piece_manager, works, done, write_block, write_at, register_in, hash_piece,
  read_range, reads, seek_error, read_error, io_exception,
}
use goed2k.Storage.Pieces.Bytes.{get_or-write_at, read_range-write_block}
use goed2k.Storage.Pieces.Tracked.{write_all, blocks_of, hash_piece-written}

abbrev two_blocks : List Buffer
two_blocks = (1 ∷ 2 ∷ []) ∷ (3 ∷ []) ∷ []

-- The second block comes first.
abbrev backwards : List (ℕ × Buffer)
backwards = (1, 3 ∷ []) ∷ (0, 1 ∷ 2 ∷ []) ∷ []

both_occur : (i : ℕ) → i < 2 → Occurs i backwards
both_occur zero h = inr (inl refl)
both_occur (suc zero) h = inl refl
both_occur (suc (suc i)) h = absurd (omega arith)

abbrev at : ℕ → ℕ → PieceBlock
at piece block = record { piece_index = piece; piece_block = block }

-- Two blocks of the last piece, the second first, and one of another piece between them.
abbrev writes : List (PieceBlock × Buffer)
writes = (at 1 1, 3 ∷ []) ∷ (at 0 9, 5 ∷ []) ∷ (at 1 0, 1 ∷ 2 ∷ []) ∷ []

abbrev two_pieces : BlocksEnumerator
two_pieces = record { piece_count = 2; blocks_in_last_piece = 2 }

last_blocks : blocks_of 1 writes ≡ backwards
unfolding blocks_of
last_blocks = refl

sizes : (blocks_in_piece two_pieces 0 ≡ 50) × (blocks_in_piece two_pieces 1 ≡ 2)
unfolding blocks_in_piece
sizes = (refl, refl)

hash_piece-written_example :
    (p : PieceManager) × (write_all (new_piece_manager (some []) 2 2) writes ≡ some p)
    × ((hash_piece (λ bytes. bytes) p 1).1 ≡ concat two_blocks)
unfolding blocks_in_piece blocks_of
hash_piece-written_example =
    hash_piece-written (λ bytes. bytes) [] 2 2 1 two_blocks writes refl
      (omega arith, (omega arith, (omega arith, tt))) (refl, (refl, tt)) both_occur

abbrev open_manager : PieceManager
open_manager = record {
  enumerator = record { piece_count = 1; blocks_in_last_piece = 2 };
  file = some (9 ∷ 9 ∷ 9 ∷ 9 ∷ []);
  block_mgrs = [];
}

abbrev after_write : PieceManager
after_write = record {
  enumerator = record { piece_count = 1; blocks_in_last_piece = 2 };
  file = some (3 ∷ 4 ∷ 9 ∷ 9 ∷ []);
  block_mgrs =
      record {
        piece = 0;
        next_block = 1;
        buffers = none ∷ none ∷ [];
        hashed = 3 ∷ 4 ∷ [];
        piece_hash = none;
      }
      ∷ [];
}

get_or-write_at_example :
    get_or (write_at (9 ∷ []) 3 (7 ∷ 8 ∷ [])) 4 0
    ≡ (if leb 3 4 && ltb 4 5 then get_or (7 ∷ 8 ∷ []) 1 0 else get_or (9 ∷ []) 4 0)
get_or-write_at_example = get_or-write_at (9 ∷ []) 3 (7 ∷ 8 ∷ []) 4

written :
    write_block works open_manager (at 0 0) (3 ∷ 4 ∷ [])
    ≡ some (after_write, done ((3 ∷ 4 ∷ []) ∷ []))
unfolding write_block write_at register_in register_block new_block_manager blocks_in_piece
    blocks_offset hash_from hash_run
written = refl

read_range-write_block_example :
    let begin = blocks_offset (at 0 0) * block_size in
    (read_range reads after_write begin (begin + 2) ≡ done (3 ∷ 4 ∷ []))
    × (read_range seek_error after_write begin (begin + 2) ≡ io_exception)
    × (read_range read_error after_write begin (begin + 2) ≡ io_exception)
read_range-write_block_example =
    read_range-write_block open_manager after_write (at 0 0) (3 ∷ 4 ∷ []) ((3 ∷ 4 ∷ []) ∷ [])
      (omega arith) written

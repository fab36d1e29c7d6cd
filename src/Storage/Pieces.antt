-- ===== src/Storage/Pieces.antt =====
-- piece_manager.go: a file, and the block managers of the pieces that are being written.
pub mod Bytes
pub mod Tracked
use goed2k.Common.{
  Bool, true, false, ℕ, zero, suc, ◌+◌, ◌-◌, ◌*◌, List, [], ◌∷◌, ◌++◌, Option, none, some, ◌==◌,
  leb, ltb, if◌then◌else◌, length, take, drop, replicate,
}
use mathlib.Core.Option
use goed2k.Common.Int.{ℤ, pos, negsuc}
use goed2k.Geometry.{
  PieceBlock, blocks_offset, block_size, block_bytes, BlocksEnumerator, blocks_in_piece,
}
use goed2k.Storage.Blocks.{Buffer, BlockManager, new_block_manager, register_block, hash_of, held}

-- `file` is the content of the handler's file, or `none` if it cannot be opened.
pub record PieceManager : Type 0 where
  pub enumerator : BlocksEnumerator
  pub file : Option (List ℕ)
  pub block_mgrs : List BlockManager

unfoldable pub new_piece_manager : Option (List ℕ) → ℕ → ℕ → PieceManager
new_piece_manager file piece_count last = record {
  enumerator = record { piece_count = piece_count; blocks_in_last_piece = last };
  file = file;
  block_mgrs = [];
}

-- An error of the disk, or a result. Go's panic is `none` around it.
pub data Access {ℓ} (A : Type ℓ) : Type ℓ where
  done : A → Access A
  io_exception illegal_argument : Access A

-- What the operating system does with a seek and a write: a write that fails leaves some content.
pub data Disk : Type 0 where
  works seek_fails : Disk
  write_fails : List ℕ → Disk

-- The same for a seek and a read, which changes nothing.
pub data Reading : Type 0 where
  reads seek_error read_error : Reading

-- A write at an offset. What lies between the end of the file and the offset is zero.
unfoldable pub write_at : List ℕ → ℕ → Buffer → List ℕ
write_at file offset [] = file
write_at file offset (x ∷ xs) =
    take offset (file ++ replicate offset 0) ++ (x ∷ xs) ++ drop (offset + length (x ∷ xs)) file

-- The content from an offset on, if the file has as much: `io.ReadFull` of a disk that works.
unfoldable pub read_at : List ℕ → ℕ → ℕ → Access Buffer
read_at file offset n =
    if leb (offset + n) (length file) then done (take n (drop offset file)) else io_exception

-- `Seek` and `io.ReadFull`.
unfoldable pub read_from : Reading → List ℕ → ℕ → ℕ → Access Buffer
unfolding read_at
read_from reads file offset n = read_at file offset n
read_from seek_error file offset n = io_exception
read_from read_error file offset n = io_exception

abbrev is_seek_error : Reading → Bool
is_seek_error seek_error = true
is_seek_error _ = false

-- `getBlockManager` and `RegisterBlock`: the manager is changed where it stands, a new one is added
-- at the end.
abbrev replaced :
    List BlockManager
    → Option (BlockManager × List Buffer)
    → Option (List BlockManager × List Buffer)
replaced ms none = none
replaced ms (some (m, free)) = some (m ∷ ms, free)

abbrev kept_first :
    BlockManager
    → Option (List BlockManager × List Buffer)
    → Option (List BlockManager × List Buffer)
kept_first m none = none
kept_first m (some (ms, free)) = some (m ∷ ms, free)

unfoldable pub register_in :
    ℕ → ℕ → ℕ → Buffer → List BlockManager → Option (List BlockManager × List Buffer)
unfolding register_block new_block_manager
register_in piece count i b [] = replaced [] (register_block (new_block_manager piece count) i b)
register_in piece count i b (m ∷ ms) =
    if m.piece == piece
    then replaced ms (register_block m i b)
    else kept_first m (register_in piece count i b ms)

abbrev with_managers :
    PieceManager
    → Option (List BlockManager × List Buffer)
    → Option (PieceManager × Access (List Buffer))
with_managers p none = none
with_managers p (some (ms, free)) = some (record p { block_mgrs = ms }, done free)

abbrev pub register_at :
    PieceManager → PieceBlock → Buffer → Option (List BlockManager × List Buffer)
register_at p block buffer =
    register_in block.piece_index (blocks_in_piece p.enumerator block.piece_index) block.piece_block
      buffer p.block_mgrs

unfoldable pub write_block :
    Disk → PieceManager → PieceBlock → Buffer → Option (PieceManager × Access (List Buffer))
unfolding write_at register_in
write_block disk p block buffer = elim p.file [
  | none ↦ some (p, io_exception)
  | some file ↦ elim disk [
    | seek_fails ↦ some (p, io_exception)
    | write_fails left ↦ some (record p { file = some left }, io_exception)
    | works ↦
        with_managers
          (record p { file = some (write_at file (blocks_offset block * block_size) buffer) })
          (register_at p block buffer)
  ]
]

-- The block is read from the file again and registered.
abbrev with_buffer :
    PieceManager
    → Buffer
    → Option (List BlockManager × List Buffer)
    → Option (PieceManager × Access (List Buffer × Buffer))
with_buffer p buffer none = none
with_buffer p buffer (some (ms, free)) = some (record p { block_mgrs = ms }, done (free, buffer))

abbrev restore_read :
    PieceManager
    → PieceBlock
    → Access Buffer
    → Option (PieceManager × Access (List Buffer × Buffer))
restore_read p block (done buffer) = with_buffer p buffer (register_at p block buffer)
restore_read p block io_exception = some (p, io_exception)
restore_read p block illegal_argument = some (p, illegal_argument)

-- A negative size makes `make` panic.
unfoldable pub restore_block :
    Reading → PieceManager → PieceBlock → ℕ → Option (PieceManager × Access (List Buffer × Buffer))
unfolding read_from register_in
restore_block disk p block file_size = elim p.file [
  | none ↦ some (p, io_exception)
  | some file ↦
      if is_seek_error disk then some (p, io_exception) else elim (block_bytes block file_size) [
        | negsuc n ↦ none
        | pos n ↦ restore_read p block (read_from disk file (blocks_offset block * block_size) n)
      ]
]

unfoldable pub read_range : Reading → PieceManager → ℕ → ℕ → Access Buffer
unfolding read_from
read_range disk p begin end =
    let opened : Access Buffer = elim p.file [
      | none ↦ io_exception
      | some file ↦ read_from disk file begin (end - begin)
    ] in
    if leb end begin then illegal_argument else opened

unfoldable pub find_manager : ℕ → ℕ → List BlockManager → BlockManager
unfolding new_block_manager
find_manager piece count [] = new_block_manager piece count
find_manager piece count (m ∷ ms) = if m.piece == piece then m else find_manager piece count ms

-- The first manager of the piece goes.
unfoldable pub drop_manager : ℕ → List BlockManager → List BlockManager
drop_manager piece [] = []
drop_manager piece (m ∷ ms) = if m.piece == piece then ms else m ∷ drop_manager piece ms

-- A manager that `getBlockManager` adds is taken out again.
unfoldable pub hash_piece : (List ℕ → List ℕ) → PieceManager → ℕ → PieceManager × List ℕ
unfolding find_manager drop_manager hash_of
hash_piece md4 p piece =
    let (m, hash) =
      hash_of md4 (find_manager piece (blocks_in_piece p.enumerator piece) p.block_mgrs) in
    (record p { block_mgrs = drop_manager piece p.block_mgrs }, hash)

unfoldable pub held_all : List BlockManager → List Buffer
unfolding held
held_all [] = []
held_all (m ∷ ms) = held m.buffers ++ held_all ms

unfoldable pub abort : PieceManager → PieceManager × List Buffer
unfolding held_all
abort p = (record p { block_mgrs = [] }, held_all p.block_mgrs)

-- The file is closed, and deleted on demand. `File` makes a deleted file again, empty.
unfoldable pub release_file : PieceManager → Bool → PieceManager × List Buffer
unfolding abort
release_file p delete_file =
    let (q, free) = abort p in
    (if delete_file then record q { file = Option.map (λ _. []) q.file } else q, free)

-- ===== src/Storage/Pieces/Tracked.antt =====
-- The managers of a piece manager: each follows the blocks of its own piece, whatever else is
-- written in between, and the hash of a piece is that of its blocks in their order.
use goed2k.Common.{
  ℕ, ◌+◌, ◌*◌, ◌<◌, ◌≡◌, ◌≢◌, refl, ap, sym, ◌∙◌, List, [], ◌∷◌, Option, none, some, ◌==◌, ==_iff,
  if◌then◌else◌, Bool-cases, inl, inr, length, set, ◌++◌, length-set, length-replicate, All, arith,
  get_elem?,
}
use goed2k.Geometry.{PieceBlock, blocks_offset, block_size, BlocksEnumerator, blocks_in_piece}
use goed2k.Storage.Blocks.{
  Buffer, BlockManager, new_block_manager, register_block, concat, hash_of, hash_from,
}
use goed2k.Storage.Blocks.Hashed.{hash_from-run, register_all}
use goed2k.Storage.Blocks.Whole.{Occurs, register_all-whole}
use goed2k.Storage.Pieces.{
  PieceManager, new_piece_manager, works, done, register_in, write_block, write_at, find_manager,
  hash_piece,
}

-- A manager has the buffers of its piece, and has given out no hash.
pub record IsOpen (e : BlocksEnumerator) (m : BlockManager) : Type 0 where
  pub buffers : length m.buffers ≡ blocks_in_piece e m.piece
  pub unhashed : m.piece_hash ≡ none

register_block-IsOpen :
    (e : BlocksEnumerator) (m : BlockManager) (i : ℕ) (b : Buffer)
    → IsOpen e m
    → i < blocks_in_piece e m.piece
    → (m' : BlockManager) × (free : List Buffer) × (register_block m i b ≡ some (m', free))
      × (m'.piece ≡ m.piece)
      × IsOpen e m'
unfolding register_block
register_block-IsOpen e m i b o h =
    let stored = set m.buffers i (some b) in
    let f = hash_from-run i stored in
    let size = length-set m.buffers i (some b) ∙ o.buffers in
    let joined : BlockManager = record m {
      buffers = (hash_from i stored).0;
      hashed = m.hashed ++ concat (hash_from i stored).1;
      next_block = m.next_block + length (hash_from i stored).1;
    } in
    elim (Bool-cases (m.next_block == i)) [
      | inl here ↦ (
        joined,
        (hash_from i stored).1,
        ground (arith, here, h, o.buffers),
        refl,
        record { buffers = f.1 ∙ size; unhashed = o.unhashed },
      )
      | inr away ↦ (
        record m { buffers = stored },
        [],
        ground (arith, away, h, o.buffers),
        refl,
        record { buffers = size; unhashed = o.unhashed },
      )
    ]

new_block_manager-IsOpen :
    (e : BlocksEnumerator) (piece : ℕ)
    → IsOpen e (new_block_manager piece (blocks_in_piece e piece))
unfolding new_block_manager
new_block_manager-IsOpen e piece = record {
  buffers = length-replicate (blocks_in_piece e piece) none;
  unhashed = refl;
}

fresh_piece : (piece count : ℕ) → (new_block_manager piece count).piece ≡ piece
unfolding new_block_manager
fresh_piece piece count = refl

-- The manager of the piece registers the block; those of other pieces are as they were.
register_in-find :
    (e : BlocksEnumerator) (piece i : ℕ) (b : Buffer) (ms : List BlockManager)
    → All (IsOpen e) ms
    → i < blocks_in_piece e piece
    → (ms' : List BlockManager) × (free : List Buffer) × (register_in piece
          (blocks_in_piece e piece)
          i
          b
          ms
        ≡ some (ms', free))
      × (register_block (find_manager piece (blocks_in_piece e piece) ms) i b
          ≡ some (find_manager piece (blocks_in_piece e piece) ms', free))
      × ((other count : ℕ)
          → other ≢ piece
          → find_manager other count ms' ≡ find_manager other count ms)
      × All (IsOpen e) ms'
unfolding register_in find_manager
register_in-find e piece i b [] a h =
    let fresh = new_block_manager piece (blocks_in_piece e piece) in
    let (m', free, q, same, o) =
      register_block-IsOpen e fresh i b (new_block_manager-IsOpen e piece) h in
    let found : find_manager piece (blocks_in_piece e piece) (m' ∷ []) ≡ m' =
      ground (arith, same, fresh_piece piece (blocks_in_piece e piece)) in
    (
      m' ∷ [],
      free,
      rw q,
      rw found q,
      (λ other count ne. ground (arith, same, ne, fresh_piece piece (blocks_in_piece e piece))),
      (o, tt),
    )
register_in-find e piece i b (m ∷ ms) a h = elim (Bool-cases (m.piece == piece)) [
  | inl here ↦
      let k : i < blocks_in_piece e m.piece = rw ((==_iff m.piece piece).0 here) h in
      let (m', free, q, same, o) = register_block-IsOpen e m i b a.0 k in
      (
        m' ∷ ms,
        free,
        rw (here, q),
        ground (arith, here, q, same),
        (λ other count ne. ground (arith, same, here, ne)),
        (o, a.1),
      )
  | inr away ↦
      let (ms', free, q, q', others, o) = register_in-find e piece i b ms a.1 h in
      (
        m ∷ ms',
        free,
        rw (away, q),
        rw away q',
        (λ other count ne. ground (arith, others other count ne)),
        (a.0, o),
      )
]

-- Blocks that are written one after the other, with a disk that works.
unfoldable pub write_all : PieceManager → List (PieceBlock × Buffer) → Option PieceManager
unfolding write_block
write_all p [] = some p
write_all p ((block, b) ∷ ops) = elim (write_block works p block b) [
  | some (p', done free) ↦ write_all p' ops
  | _ ↦ none
]

-- The blocks of one piece, in the order of the writes.
unfoldable pub blocks_of : ℕ → List (PieceBlock × Buffer) → List (ℕ × Buffer)
blocks_of piece [] = []
blocks_of piece ((block, b) ∷ ops) =
    if block.piece_index == piece
    then (block.piece_block, b) ∷ blocks_of piece ops
    else blocks_of piece ops

-- A block of its piece.
abbrev pub IsInPiece : BlocksEnumerator → PieceBlock × Buffer → Type 0
IsInPiece e op = op.0.piece_block < blocks_in_piece e op.0.piece_index

record IsReady (e : BlocksEnumerator) (p : PieceManager) : Type 0 where
  same : p.enumerator ≡ e
  open_file : (f : List ℕ) × (p.file ≡ some f)
  managers : All (IsOpen e) p.block_mgrs

write_block-IsReady :
    (e : BlocksEnumerator) (p : PieceManager) (block : PieceBlock) (b : Buffer)
    → IsReady e p
    → IsInPiece e (block, b)
    → (p' : PieceManager) × (free : List Buffer) × (write_block works p block b
        ≡ some (p', done free))
      × IsReady e p'
      × (register_block
            (find_manager block.piece_index (blocks_in_piece e block.piece_index) p.block_mgrs)
            block.piece_block
            b
          ≡ some (
            find_manager block.piece_index (blocks_in_piece e block.piece_index) p'.block_mgrs,
            free,
          ))
      × ((other count : ℕ)
          → other ≢ block.piece_index
          → find_manager other count p'.block_mgrs ≡ find_manager other count p.block_mgrs)
unfolding write_block
write_block-IsReady e p block b r h =
    let (ms, free, q, q', others, o) =
      register_in-find e block.piece_index block.piece_block b p.block_mgrs r.managers h in
    let file = write_at r.open_file.0 (blocks_offset block * block_size) b in
    let p' : PieceManager = record p { file = some file; block_mgrs = ms } in
    (
      p',
      free,
      rw (r.open_file.1, r.same, q),
      record { same = r.same; open_file = (file, refl); managers = o },
      q',
      others,
    )

write_all-find :
    (piece : ℕ) (e : BlocksEnumerator) (ops : List (PieceBlock × Buffer)) (p : PieceManager)
    → IsReady e p
    → All (IsInPiece e) ops
    → (p' : PieceManager) × (write_all p ops ≡ some p')
      × IsReady e p'
      × (register_all
            (find_manager piece (blocks_in_piece e piece) p.block_mgrs)
            (blocks_of piece ops)
          ≡ some (find_manager piece (blocks_in_piece e piece) p'.block_mgrs))
unfolding write_all blocks_of register_all
write_all-find piece e [] p r h = (p, refl, r, refl)
write_all-find piece e ((block, b) ∷ ops) p r h =
    let (p', free, q, r', here, others) = write_block-IsReady e p block b r h.0 in
    let (p'', q', r'', rest) = write_all-find piece e ops p' r' h.1 in
    (
      p'',
      rw (write_all, q) q',
      r'',
      elim (Bool-cases (block.piece_index == piece)) [
        | inl same ↦
            let z : block.piece_index ≡ piece = (==_iff block.piece_index piece).0 same in
            rw (same, register_all, rw z at here) rest
        | inr away ↦ rw (away, ← others piece (blocks_in_piece e piece) (ground (arith, away))) rest
      ],
    )

find_manager-unhashed :
    (e : BlocksEnumerator) (piece : ℕ) (ms : List BlockManager)
    → All (IsOpen e) ms
    → (find_manager piece (blocks_in_piece e piece) ms).piece_hash ≡ none
unfolding find_manager
find_manager-unhashed e piece [] o = (new_block_manager-IsOpen e piece).unhashed
find_manager-unhashed e piece (m ∷ ms) o = elim (Bool-cases (m.piece == piece)) [
  | inl here ↦ rw here o.0.unhashed
  | inr away ↦ rw away (find_manager-unhashed e piece ms o.1)
]

hash_of-open :
    (md4 : List ℕ → List ℕ) (m : BlockManager)
    → m.piece_hash ≡ none
    → (hash_of md4 m).1 ≡ md4 m.hashed
unfolding hash_of
hash_of-open md4 m h = ground (arith, h)

hash_piece-open :
    (md4 : List ℕ → List ℕ) (e : BlocksEnumerator) (p : PieceManager) (piece : ℕ)
    → IsReady e p
    → (hash_piece md4 p piece).1
      ≡ md4 (find_manager piece (blocks_in_piece e piece) p.block_mgrs).hashed
unfolding hash_piece
hash_piece-open md4 e p piece r = rw r.same (
    hash_of-open md4 (find_manager piece (blocks_in_piece e piece) p.block_mgrs)
      (find_manager-unhashed e piece p.block_mgrs r.managers))

hashed_of : (m n : BlockManager) → some m ≡ some n → m.hashed ≡ n.hashed
hashed_of m n e = cc

-- For a new piece manager of an open file on a disk that works (no Seek and no Write of the file
-- fails) and a hash function, and writes, in any order and interleaved with writes to other
-- pieces, of blocks in range that all agree with the blocks of one piece and name each of them
-- at least once: WriteBlock panics or fails at none of them, and HashPiece is then the hash of
-- that piece's blocks one after the other.
pub hash_piece-written :
    (md4 : List ℕ → List ℕ) (file : List ℕ) (piece_count last piece : ℕ) (xs : List Buffer)
    (ops : List (PieceBlock × Buffer))
    → let e : BlocksEnumerator = record {
      piece_count = piece_count;
      blocks_in_last_piece = last;
    } in
      length xs ≡ blocks_in_piece e piece
      → All (IsInPiece e) ops
      → All (λ op. get_elem? xs op.0 ≡ some op.1) (blocks_of piece ops)
      → ((i : ℕ) → i < length xs → Occurs i (blocks_of piece ops))
      → (p : PieceManager) × (write_all (new_piece_manager (some file) piece_count last) ops
          ≡ some p)
        × ((hash_piece md4 p piece).1 ≡ md4 (concat xs))
unfolding new_piece_manager hash_piece find_manager hash_of
hash_piece-written md4 file piece_count last piece xs ops whole inside right all =
    let e : BlocksEnumerator = record { piece_count = piece_count; blocks_in_last_piece = last } in
    let start = new_piece_manager (some file) piece_count last in
    let r : IsReady e start = record { same = refl; open_file = (file, refl); managers = tt } in
    let (p, q, r', followed) = write_all-find piece e ops start r inside in
    let (m, q', h, n) = register_all-whole piece xs (blocks_of piece ops) right all in
    let found = find_manager piece (blocks_in_piece e piece) p.block_mgrs in
    let same : some found ≡ some m = sym followed ∙ rw (← whole) q' in
    (p, q, hash_piece-open md4 e p piece r' ∙ ap md4 (hashed_of found m same ∙ h))

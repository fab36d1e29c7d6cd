-- ===== src/Storage/Blocks.antt =====
-- block_manager.go: the blocks of one piece are hashed in their order, whatever order they come in.
-- The field `next_block` is `lastHashedBlock + 1`; a nil buffer is `none`. Go's nil slice is never
-- registered: the callers pass buffers that they filled.
pub mod Hashed
pub mod Whole
use goed2k.Common.{
  ℕ, zero, suc, ◌+◌, List, [], ◌∷◌, ◌++◌, Option, none, some, ◌==◌, ltb, if◌then◌else◌, length, set,
  replicate,
}

abbrev pub Buffer : Type 0
Buffer = List ℕ

pub record BlockManager : Type 0 where
  pub piece : ℕ
  pub next_block : ℕ
  pub buffers : List (Option Buffer)
  pub hashed : List ℕ
  pub piece_hash : Option (List ℕ)

unfoldable pub new_block_manager : ℕ → ℕ → BlockManager
new_block_manager piece buffers_count = record {
  piece = piece;
  next_block = 0;
  buffers = replicate buffers_count none;
  hashed = [];
  piece_hash = none;
}

-- The bytes of several buffers, one after the other.
unfoldable pub concat : List Buffer → List ℕ
concat [] = []
concat (b ∷ bs) = b ++ concat bs

abbrev pub emptied :
    List (Option Buffer) × List Buffer → Buffer → List (Option Buffer) × List Buffer
emptied (bs, free) b = (none ∷ bs, b ∷ free)

-- The loop of `RegisterBlock` on the buffers from its start on: the buffers afterwards, and those
-- that were hashed. It breaks at the first one that is nil.
unfoldable pub hash_run : List (Option Buffer) → List (Option Buffer) × List Buffer
hash_run [] = ([], [])
hash_run (none ∷ bs) = (none ∷ bs, [])
hash_run (some b ∷ bs) = emptied (hash_run bs) b

-- The same, with `i` buffers in front that are left alone.
unfoldable pub hash_from : ℕ → List (Option Buffer) → List (Option Buffer) × List Buffer
unfolding hash_run
hash_from zero bs = hash_run bs
hash_from (suc i) [] = ([], [])
hash_from (suc i) (b ∷ bs) = let (bs', free) = hash_from i bs in (b ∷ bs', free)

abbrev with_hashed : BlockManager → List (Option Buffer) × List Buffer → BlockManager × List Buffer
with_hashed m (bs, free) = (
  record m {
    buffers = bs;
    hashed = m.hashed ++ concat free;
    next_block = m.next_block + length free;
  },
  free,
)

-- The buffers that are free again; `none` is Go's panic at an index out of range.
unfoldable pub register_block : BlockManager → ℕ → Buffer → Option (BlockManager × List Buffer)
unfolding hash_from concat
register_block m index buffer =
    let stored : BlockManager = record m { buffers = set m.buffers index (some buffer) } in
    if ltb index (length m.buffers)
    then some (
        if m.next_block == index
        then with_hashed stored (hash_from index stored.buffers)
        else (stored, []))
    else none

-- `md4` is `HashFromData`. The hash is computed once.
unfoldable pub hash_of : (List ℕ → List ℕ) → BlockManager → BlockManager × List ℕ
hash_of md4 m = elim m.piece_hash [
  | some h ↦ (m, h)
  | none ↦ (record m { piece_hash = some (md4 m.hashed) }, md4 m.hashed)
]

unfoldable pub byte_buffers_count : List (Option Buffer) → ℕ
byte_buffers_count [] = 0
byte_buffers_count (none ∷ bs) = byte_buffers_count bs
byte_buffers_count (some b ∷ bs) = byte_buffers_count bs + 1

unfoldable pub hashed_size : BlockManager → ℕ
hashed_size m = length m.hashed

-- `Buffers`: those that are not nil.
unfoldable pub held : List (Option Buffer) → List Buffer
held [] = []
held (none ∷ bs) = held bs
held (some b ∷ bs) = b ∷ held bs

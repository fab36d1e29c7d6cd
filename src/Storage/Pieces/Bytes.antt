-- ===== src/Storage/Pieces/Bytes.antt =====
-- What a write does to the bytes of the file.
use goed2k.Common.{
  ℕ, zero, suc, ◌+◌, ◌-◌, ◌*◌, ◌<◌, ◌≡◌, refl, ap, ◌∙◌, List, [], ◌∷◌, ◌++◌, append_assoc, some,
  leb, ltb, ◌&&◌, if◌then◌else◌, length, length-append, length-take, length-replicate, take, drop,
  take-append, drop-append, replicate, get_or, arith, Option-cases, inl, inr,
}
use goed2k.Geometry.{PieceBlock, blocks_offset, block_size}
use goed2k.Storage.Blocks.{Buffer}
use goed2k.Storage.Pieces.{
  PieceManager, done, io_exception, works, reads, seek_error, read_error, read_from, write_at,
  read_at, write_block, read_range,
}

take_before : (n : ℕ) (xs ys : List ℕ) (i : ℕ) → i < n → get_or (take n xs) i 0 ≡ get_or xs i 0
take_before zero xs ys i h = elim h [ ]
take_before (suc n) [] ys i h = refl
take_before (suc n) (x ∷ xs) ys zero h = refl
take_before (suc n) (x ∷ xs) ys (suc i) h = take_before n xs ys i (omega arith)

padded : (xs : List ℕ) (n i : ℕ) → get_or (xs ++ replicate n 0) i 0 ≡ get_or xs i 0
padded [] zero i = refl
padded [] (suc n) zero = refl
padded [] (suc n) (suc i) = padded [] n i
padded (x ∷ xs) n zero = refl
padded (x ∷ xs) n (suc i) = padded xs n i

get_or-append :
    (xs ys : List ℕ) (i : ℕ)
    → get_or (xs ++ ys) i 0
      ≡ (if ltb i (length xs) then get_or xs i 0 else get_or ys (i - length xs) 0)
get_or-append [] ys i = ground arith
get_or-append (x ∷ xs) ys zero = ground arith
get_or-append (x ∷ xs) ys (suc i) = ground (arith, get_or-append xs ys i)

get_or-drop : (n : ℕ) (xs : List ℕ) (i : ℕ) → get_or (drop n xs) i 0 ≡ get_or xs (n + i) 0
get_or-drop zero xs i = ap (λ k. get_or xs k 0) (omega arith)
get_or-drop (suc n) [] i = refl
get_or-drop (suc n) (x ∷ xs) i =
    let e : suc (n + i) ≡ suc n + i = omega arith in
    get_or-drop n xs i ∙ ap (λ k. get_or (x ∷ xs) k 0) e

front : (file : List ℕ) (offset : ℕ) → length (take offset (file ++ replicate offset 0)) ≡ offset
front file offset = omega (
  arith,
  length-take offset (file ++ replicate offset 0),
  length-append file (replicate {A = ℕ} offset 0),
  length-replicate {A = ℕ} offset 0,
)

-- A write changes the bytes of its range, and no other.
pub get_or-write_at :
    (file : List ℕ) (offset : ℕ) (b : Buffer) (i : ℕ)
    → get_or (write_at file offset b) i 0 ≡ (
        if leb offset i && ltb i (offset + length b)
        then get_or b (i - offset) 0
        else get_or file i 0)
unfolding write_at
get_or-write_at file offset [] i = ground arith
get_or-write_at file offset (x ∷ xs) i =
    let before = take offset (file ++ replicate offset 0) in
    let b = x ∷ xs in
    let after = drop (offset + length b) file in
    ground (
      arith,
      front file offset,
      get_or-append (before ++ b) after i,
      get_or-append before b i,
      length-append before b,
      take_before offset (file ++ replicate offset 0) [] i,
      padded file offset i,
      get_or-drop (offset + length b) file (i - (offset + length b)),
    )

drop_exact : (n : ℕ) (xs ys : List ℕ) → length xs ≡ n → drop n (xs ++ ys) ≡ ys
drop_exact n xs ys e = rw (← e) (drop-append xs ys)

read-write_at :
    (file : List ℕ) (offset : ℕ) (b : Buffer)
    → 0 < length b
    → read_at (write_at file offset b) offset (length b) ≡ done b
unfolding read_at write_at
read-write_at file offset [] h = elim h [ ]
read-write_at file offset (x ∷ xs) h =
    let before = take offset (file ++ replicate offset 0) in
    let b = x ∷ xs in
    let after = drop (offset + length b) file in
    ground (
      arith,
      front file offset,
      append_assoc before b after,
      length-append before (b ++ after),
      length-append b after,
      drop_exact offset before (b ++ after),
      take-append b after,
    )

-- After a write of a block that is not empty and that gave no error, on a disk that works,
-- ReadRange over the bytes of the block gives the block if the seek and the read work, and
-- otherwise an error of the disk.
pub read_range-write_block :
    (p p' : PieceManager) (block : PieceBlock) (b : Buffer) (free : List Buffer)
    → 0 < length b
    → write_block works p block b ≡ some (p', done free)
    → let begin = blocks_offset block * block_size in
      (read_range reads p' begin (begin + length b) ≡ done b)
      × (read_range seek_error p' begin (begin + length b) ≡ io_exception)
      × (read_range read_error p' begin (begin + length b) ≡ io_exception)
unfolding write_block read_range read_from
read_range-write_block p p' block b free h e =
    let begin = blocks_offset block * block_size in
    elim (Option-cases p.file) [
      | inl closed ↦ absurd (ground (arith, closed, e))
      | inr (file, open_file) ↦
          let back : read_at (write_at file begin b) begin (begin + length b - begin) ≡ done b =
            ap (read_at (write_at file begin b) begin) (omega arith)
            ∙ read-write_at file begin b h in
          (
            ground (arith, open_file, e, h, back),
            ground (arith, open_file, e, h),
            ground (arith, open_file, e, h),
          )
    ]

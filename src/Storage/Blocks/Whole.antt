-- ===== src/Storage/Blocks/Whole.antt =====
-- The blocks of a piece give the piece, whatever order they come in.
use goed2k.Common.{
  ℕ, zero, suc, ◌<◌, ◌≡◌, ◌≢◌, refl, ap, sym, ◌∙◌, List, [], ◌∷◌, Option, none, some, ◌⊎◌, inl, inr,
  ltb, length, length-replicate, set, replicate, All, arith, get_elem?, Bool-cases, get_elem?-set,
  lt-length_of_get,
}
use goed2k.Storage.Blocks.{Buffer, BlockManager, new_block_manager, concat}
use goed2k.Storage.Blocks.Hashed.{
  run, receive, receive_all, register_all, register_all-Represents, new_block_manager-Represents,
}

-- What came is nothing or the right block, at each place.
abbrev Fits : List (Option Buffer) → List Buffer → Type 0
Fits [] [] = Unit {0}
Fits [] (x ∷ xs) = ⊥
Fits (o ∷ os) [] = ⊥
Fits (o ∷ os) (x ∷ xs) = ((o ≡ none) ⊎ (o ≡ some x)) × Fits os xs

-- A block that is in the run already is the one that comes again.
set-same :
    (came : List (Option Buffer)) (xs : List Buffer) (i : ℕ) (b : Buffer)
    → Fits came xs
    → get_elem? xs i ≡ some b
    → i < length (run came)
    → set came i (some b) ≡ came
unfolding run
set-same [] xs i b f e h = refl
set-same (o ∷ came) [] i b f e h = absurd f
set-same (none ∷ came) (x ∷ xs) i b f e h = elim h [ ]
set-same (some y ∷ came) (x ∷ xs) zero b f e h = elim f.0 [
  | inl n ↦ cc
  | inr q ↦ ground (arith, q, e)
]
set-same (some y ∷ came) (x ∷ xs) (suc i) b f e h =
    ap (◌∷◌ (some y)) (set-same came xs i b f.1 e (omega arith))

receive-set :
    (came : List (Option Buffer)) (xs : List Buffer) (i : ℕ) (b : Buffer)
    → Fits came xs
    → get_elem? xs i ≡ some b
    → receive came i b ≡ set came i (some b)
unfolding receive
receive-set came xs i b f e = elim (Bool-cases (ltb i (length (run came)))) [
  | inl before ↦ rw before (sym (set-same came xs i b f e (ground (arith, before))))
  | inr behind ↦ rw behind
]

set-Fits :
    (came : List (Option Buffer)) (xs : List Buffer) (i : ℕ) (b : Buffer)
    → Fits came xs
    → get_elem? xs i ≡ some b
    → Fits (set came i (some b)) xs
set-Fits [] [] i b f e = tt
set-Fits [] (x ∷ xs) i b f e = f
set-Fits (o ∷ came) [] i b f e = absurd f
set-Fits (o ∷ came) (x ∷ xs) zero b f e = (inr (sym e), f.1)
set-Fits (o ∷ came) (x ∷ xs) (suc i) b f e = (f.0, set-Fits came xs i b f.1 e)

length-Fits :
    (came : List (Option Buffer)) (xs : List Buffer) → Fits came xs → length came ≡ length xs
length-Fits [] [] f = refl
length-Fits [] (x ∷ xs) f = absurd f
length-Fits (o ∷ came) [] f = absurd f
length-Fits (o ∷ came) (x ∷ xs) f = ap suc (length-Fits came xs f.1)

-- If every block came, the run is the piece.
run-Fits :
    (came : List (Option Buffer)) (xs : List Buffer)
    → Fits came xs
    → ((i : ℕ) → i < length xs → get_elem? came i ≢ some none)
    → run came ≡ xs
unfolding run
run-Fits [] [] f h = refl
run-Fits [] (x ∷ xs) f h = absurd f
run-Fits (o ∷ came) [] f h = absurd f
run-Fits (none ∷ came) (x ∷ xs) f h = absurd (h 0 (omega arith) refl)
run-Fits (some y ∷ came) (x ∷ xs) f h =
    let rest = run-Fits came xs f.1 (λ i l. h (suc i) (omega arith)) in
    elim f.0 [ inl n ↦ cc | inr q ↦ ground (arith, q, rest) ]

-- Some block came for this place.
abbrev pub Occurs : ℕ → List (ℕ × Buffer) → Type 0
Occurs i [] = ⊥
Occurs i (op ∷ ops) = (op.0 ≡ i) ⊎ Occurs i ops

still_there :
    (came : List (Option Buffer)) (i j : ℕ) (b : Buffer)
    → get_elem? came i ≢ some none
    → get_elem? (set came j (some b)) i ≢ some none
still_there came i j b h = rw (get_elem?-set came j i (some b)) (ground (arith, h))

now_there :
    (came : List (Option Buffer)) (i : ℕ) (b : Buffer)
    → get_elem? (set came i (some b)) i ≢ some none
now_there [] i b = λ e. cc
now_there (o ∷ came) zero b = λ e. cc
now_there (o ∷ came) (suc i) b = now_there came i b

receive_all-whole :
    (ops : List (ℕ × Buffer)) (came : List (Option Buffer)) (xs : List Buffer)
    → Fits came xs
    → All (λ op. get_elem? xs op.0 ≡ some op.1) ops
    → ((i : ℕ) → i < length xs → (get_elem? came i ≢ some none) ⊎ Occurs i ops)
    → run (receive_all came ops) ≡ xs
unfolding receive_all
receive_all-whole [] came xs f a h =
    run-Fits came xs f (λ i l. elim (h i l) [ inl there ↦ there | inr o ↦ absurd o ])
receive_all-whole ((j, b) ∷ ops) came xs f a h = rw (receive-set came xs j b f a.0) (
    receive_all-whole ops (set came j (some b)) xs (set-Fits came xs j b f a.0) a.1 (λ i l.
      elim (h i l) [
        | inl there ↦ inl (still_there came i j b there)
        | inr (inl e) ↦ inl (rw e (now_there came i b))
        | inr (inr o) ↦ inr o
      ]))

none-Fits : (xs : List Buffer) → Fits (replicate (length xs) none) xs
none-Fits [] = tt
none-Fits (x ∷ xs) = (inl refl, none-Fits xs)

in_range :
    (xs : List Buffer) (ops : List (ℕ × Buffer))
    → All (λ op. get_elem? xs op.0 ≡ some op.1) ops
    → All (λ op. op.0 < length xs) ops
in_range xs [] a = tt
in_range xs (op ∷ ops) a = (lt-length_of_get xs op.0 a.0, in_range xs ops a.1)

-- For blocks that all agree with the blocks of a piece and name each of them at least once, in
-- any order, a new block manager takes them with no panic, its hashed bytes are the blocks of
-- the piece one after the other, and all blocks are hashed.
pub register_all-whole :
    (piece : ℕ) (xs : List Buffer) (ops : List (ℕ × Buffer))
    → All (λ op. get_elem? xs op.0 ≡ some op.1) ops
    → ((i : ℕ) → i < length xs → Occurs i ops)
    → (m : BlockManager) × (register_all (new_block_manager piece (length xs)) ops ≡ some m)
      × (m.hashed ≡ concat xs)
      × (m.next_block ≡ length xs)
register_all-whole piece xs ops a h =
    let n = length xs in
    let (m, e, r) =
      register_all-Represents n ops (new_block_manager piece n) (replicate n none)
        (length-replicate n none) (new_block_manager-Represents piece n) (in_range xs ops a) in
    let whole = receive_all-whole ops (replicate n none) xs (none-Fits xs) a (λ i l. inr (h i l)) in
    (m, e, r.hashed ∙ ap concat whole, r.next ∙ ap length whole)

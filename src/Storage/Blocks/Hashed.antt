-- ===== src/Storage/Blocks/Hashed.antt =====
-- What a block manager has hashed, in terms of the blocks it was given.
use goed2k.Common.{
  ℕ, zero, suc, ◌+◌, ◌≤◌, ◌<◌, ◌≡◌, ◌≢◌, refl, ap, sym, ◌∙◌, List, [], ◌∷◌, ◌++◌, append_assoc,
  append-nil, Option, none, some, ◌==◌, ltb, if◌then◌else◌, length, length-set, length-append, set,
  replicate, drop, All, arith, Bool-cases, ==_iff, inl, inr,
}
use goed2k.Storage.Blocks.{
  Buffer, BlockManager, new_block_manager, concat, hash_run, hash_from, register_block,
}

-- The blocks that came, at their places; the longest run of them from the start.
unfoldable pub run : List (Option Buffer) → List Buffer
run [] = []
run (none ∷ bs) = []
run (some b ∷ bs) = b ∷ run bs

-- A block that belongs to the run is kept as it is; at any other place the last one counts.
unfoldable pub receive : List (Option Buffer) → ℕ → Buffer → List (Option Buffer)
unfolding run
receive bs i b = if ltb i (length (run bs)) then bs else set bs i (some b)

pub record Represents (m : BlockManager) (came : List (Option Buffer)) : Type 0 where
  pub places : length m.buffers ≡ length came
  pub hashed : m.hashed ≡ concat (run came)
  pub next : m.next_block ≡ length (run came)
  pub pending : drop m.next_block m.buffers ≡ drop m.next_block came

concat-append : (xs ys : List Buffer) → concat (xs ++ ys) ≡ concat xs ++ concat ys
unfolding concat
concat-append [] ys = refl
concat-append (x ∷ xs) ys = rw (concat-append xs ys, append_assoc)

run-le-length : (bs : List (Option Buffer)) → length (run bs) ≤ length bs
unfolding run
run-le-length [] = omega arith
run-le-length (none ∷ bs) = omega arith
run-le-length (some b ∷ bs) = omega (arith, run-le-length bs)

run-replicate : (n : ℕ) → run (replicate n none) ≡ []
unfolding run
run-replicate zero = refl
run-replicate (suc n) = refl

-- A block that does not continue the run leaves it.
run-set_past :
    (bs : List (Option Buffer)) (i : ℕ) (b : Buffer)
    → length (run bs) < i
    → run (set bs i (some b)) ≡ run bs
unfolding run
run-set_past [] i b h = refl
run-set_past (none ∷ bs) zero b h = elim h [ ]
run-set_past (none ∷ bs) (suc i) b h = refl
run-set_past (some a ∷ bs) zero b h = elim h [ ]
run-set_past (some a ∷ bs) (suc i) b h = ap (◌∷◌ a) (run-set_past bs i b (omega arith))

drop-set_past :
    {A : Type 0} (bs : List A) (n i : ℕ) (b : A) → i < n → drop n (set bs i b) ≡ drop n bs
drop-set_past [] n i b h = refl
drop-set_past (x ∷ bs) zero i b h = elim h [ ]
drop-set_past (x ∷ bs) (suc n) zero b h = refl
drop-set_past (x ∷ bs) (suc n) (suc i) b h = drop-set_past bs n i b (omega arith)

-- Two lists that agree from `n` on still do when both are written at a place.
drop-set_both :
    {A : Type 0} (xs ys : List A) (n i : ℕ) (b : A)
    → length xs ≡ length ys
    → drop n xs ≡ drop n ys
    → drop n (set xs i b) ≡ drop n (set ys i b)
drop-set_both [] [] n i b e h = refl
drop-set_both [] (y ∷ ys) n i b e h = absurd (omega arith)
drop-set_both (x ∷ xs) [] n i b e h = absurd (omega arith)
drop-set_both (x ∷ xs) (y ∷ ys) zero i b e h = ap (λ l. set l i b) h
drop-set_both (x ∷ xs) (y ∷ ys) (suc n) zero b e h = h
drop-set_both (x ∷ xs) (y ∷ ys) (suc n) (suc i) b e h = drop-set_both xs ys n i b (omega arith) h

-- The loop takes the run of the buffers from its start on, and leaves what is behind it.
hash_run-run :
    (bs : List (Option Buffer))
    → ((hash_run bs).1 ≡ run bs)
      × (length (hash_run bs).0 ≡ length bs)
      × (drop (length (run bs)) (hash_run bs).0 ≡ drop (length (run bs)) bs)
unfolding hash_run run
hash_run-run [] = (refl, refl, refl)
hash_run-run (none ∷ bs) = (refl, refl, refl)
hash_run-run (some b ∷ bs) = let h = hash_run-run bs in (ap (◌∷◌ b) h.0, ap suc h.1, h.2)

pub hash_from-run :
    (n : ℕ) (bs : List (Option Buffer))
    → ((hash_from n bs).1 ≡ run (drop n bs))
      × (length (hash_from n bs).0 ≡ length bs)
      × (drop (n + length (run (drop n bs))) (hash_from n bs).0
          ≡ drop (n + length (run (drop n bs))) bs)
unfolding hash_from run
hash_from-run zero bs =
    let h = hash_run-run bs in
    (
      h.0,
      h.1,
      ap (λ k. drop k (hash_run bs).0) (omega arith) ∙ h.2 ∙ ap (λ k. drop k bs) (omega arith),
    )
hash_from-run (suc n) [] = (refl, refl, refl)
hash_from-run (suc n) (b ∷ bs) =
    let h = hash_from-run n bs in
    let k = length (run (drop n bs)) in
    let e : suc n + k ≡ suc (n + k) = omega arith in (h.0, ap suc h.1, rw e h.2)

-- At the end of the run a new block joins it to what was waiting behind.
run-set_next :
    (bs : List (Option Buffer)) (b : Buffer)
    → length (run bs) < length bs
    → run (set bs (length (run bs)) (some b))
      ≡ run bs ++ run (drop (length (run bs)) (set bs (length (run bs)) (some b)))
unfolding run
run-set_next [] b h = refl
run-set_next (none ∷ bs) b h = refl
run-set_next (some a ∷ bs) b h = ap (◌∷◌ a) (run-set_next bs b (omega arith))

drop_nil : {A : Type 0} (n : ℕ) → drop {A = A} n [] ≡ []
drop_nil zero = refl
drop_nil (suc n) = refl

drop-add : {A : Type 0} (n k : ℕ) (xs : List A) → drop (n + k) xs ≡ drop k (drop n xs)
drop-add zero k xs = ap (λ j. drop j xs) (omega arith)
drop-add (suc n) k [] = drop_nil (suc n + k) ∙ sym (drop_nil k)
drop-add (suc n) k (x ∷ xs) =
    let e : suc n + k ≡ suc (n + k) = omega arith in rw e (drop-add n k xs)

-- At the end of the run the loop hashes what the run gains.
run-joined :
    (m : BlockManager) (came : List (Option Buffer)) (b : Buffer)
    → Represents m came
    → m.next_block < length came
    → run (set came m.next_block (some b))
      ≡ run came ++ (hash_from m.next_block (set m.buffers m.next_block (some b))).1
run-joined m came b r h =
    let i = m.next_block in
    let same : drop i (set m.buffers i (some b)) ≡ drop i (set came i (some b)) =
      drop-set_both m.buffers came i i (some b) r.places r.pending in
    let f = hash_from-run i (set m.buffers i (some b)) in
    rw (f.0, same, r.next) (run-set_next came b (omega (arith, r.next)))

-- A block joins the run at its end.
register-next :
    (m : BlockManager) (came : List (Option Buffer)) (b : Buffer)
    → Represents m came
    → m.next_block < length came
    → let bs = set m.buffers m.next_block (some b) in
      let (bs', free) = hash_from m.next_block bs in
      Represents
        (record m {
          buffers = bs';
          hashed = m.hashed ++ concat free;
          next_block = m.next_block + length free;
        })
        (set came m.next_block (some b))
register-next m came b r h =
    let i = m.next_block in
    let bs = set m.buffers i (some b) in
    let cs = set came i (some b) in
    let same : drop i bs ≡ drop i cs =
      drop-set_both m.buffers came i i (some b) r.places r.pending in
    let f = hash_from-run i bs in
    let k = length (run (drop i bs)) in
    let joined = run-joined m came b r h in
    record {
      places = f.1 ∙ length-set m.buffers i (some b) ∙ r.places ∙ sym (length-set came i (some b));
      hashed = rw (joined, r.hashed) (sym (concat-append (run came) (hash_from i bs).1));
      next = omega (arith, ap length joined, r.next, length-append (run came) (hash_from i bs).1);
      pending = rw f.0 (f.2 ∙ drop-add i k bs ∙ ap (drop k) same ∙ sym (drop-add i k cs));
    }

-- A block before or behind the end of the run is only stored.
register_later :
    (m : BlockManager) (came : List (Option Buffer)) (i : ℕ) (b : Buffer)
    → Represents m came
    → m.next_block ≢ i
    → Represents (record m { buffers = set m.buffers i (some b) }) (receive came i b)
unfolding receive
register_later m came i b r ne = elim (Bool-cases (ltb i (length (run came)))) [
  | inl before ↦
      let lt : i < m.next_block = ground (arith, r.next, before) in
      rw before (record {
        places = length-set m.buffers i (some b) ∙ r.places;
        hashed = r.hashed;
        next = r.next;
        pending = drop-set_past m.buffers m.next_block i (some b) lt ∙ r.pending;
      })
  | inr behind ↦
      let lt : length (run came) < i = ground (arith, r.next, behind, ne) in
      let same : run (set came i (some b)) ≡ run came = run-set_past came i b lt in
      rw behind (record {
        places = length-set m.buffers i (some b) ∙ r.places ∙ sym (length-set came i (some b));
        hashed = r.hashed ∙ ap concat (sym same);
        next = r.next ∙ ap length (sym same);
        pending = drop-set_both m.buffers came m.next_block i (some b) r.places r.pending;
      })
]

pub new_block_manager-Represents :
    (piece n : ℕ) → Represents (new_block_manager piece n) (replicate n none)
unfolding new_block_manager concat
new_block_manager-Represents piece n = record {
  places = refl;
  hashed = ap concat (sym (run-replicate n));
  next = ap length (sym (run-replicate n));
  pending = refl;
}

receive-next :
    (came : List (Option Buffer)) (i : ℕ) (b : Buffer)
    → i ≡ length (run came)
    → receive came i b ≡ set came i (some b)
unfolding receive
receive-next came i b e = ground (arith, e)

run-receive_away :
    (came : List (Option Buffer)) (i : ℕ) (b : Buffer)
    → length (run came) ≢ i
    → run (receive came i b) ≡ run came
unfolding receive
run-receive_away came i b ne = elim (Bool-cases (ltb i (length (run came)))) [
  | inl before ↦ rw before
  | inr behind ↦ rw behind (run-set_past came i b (ground (arith, behind, ne)))
]

length-receive :
    (came : List (Option Buffer)) (i : ℕ) (b : Buffer) → length (receive came i b) ≡ length came
unfolding receive
length-receive came i b = ground (arith, length-set came i (some b))

-- Register.
pub register_block-Represents :
    (m : BlockManager) (came : List (Option Buffer)) (i : ℕ) (b : Buffer)
    → Represents m came
    → i < length came
    → (m' : BlockManager) × (free : List Buffer) × (register_block m i b ≡ some (m', free))
      × Represents m' (receive came i b)
      × (run (receive came i b) ≡ run came ++ free)
unfolding register_block
register_block-Represents m came i b r h = elim (Bool-cases (m.next_block == i)) [
  | inl here ↦
      let e : i ≡ m.next_block = sym ((==_iff m.next_block i).0 here) in
      let k : m.next_block < length came = rw e at h in
      let bs = set m.buffers m.next_block (some b) in
      let free = (hash_from m.next_block bs).1 in
      let joins : receive came m.next_block b ≡ set came m.next_block (some b) =
        receive-next came m.next_block b r.next in
      let m' : BlockManager = record m {
        buffers = (hash_from m.next_block bs).0;
        hashed = m.hashed ++ concat free;
        next_block = m.next_block + length free;
      } in
      rw e (
        m',
        free,
        ground (arith, k, r.places),
        rw joins (register-next m came b r k),
        rw joins (run-joined m came b r k),
      )
  | inr away ↦
      let ne : m.next_block ≢ i = ground (arith, away) in
      let m' : BlockManager = record m { buffers = set m.buffers i (some b) } in
      let r' = register_later m came i b r ne in
      (
        m',
        [],
        ground (arith, h, away, r.places),
        r',
        run-receive_away came i b (rw r.next at ne) ∙ sym (append-nil (run came)),
      )
]

-- Several blocks in the order in which they come; `none` is a panic.
unfoldable pub register_all : BlockManager → List (ℕ × Buffer) → Option BlockManager
unfolding register_block
register_all m [] = some m
register_all m ((i, b) ∷ ops) = elim (register_block m i b) [
  | none ↦ none
  | some (m', free) ↦ register_all m' ops
]

unfoldable pub receive_all : List (Option Buffer) → List (ℕ × Buffer) → List (Option Buffer)
unfolding receive
receive_all came [] = came
receive_all came ((i, b) ∷ ops) = receive_all (receive came i b) ops

-- All.
pub register_all-Represents :
    (n : ℕ) (ops : List (ℕ × Buffer)) (m : BlockManager) (came : List (Option Buffer))
    → length came ≡ n
    → Represents m came
    → All (λ op. op.0 < n) ops
    → (m' : BlockManager) × (register_all m ops ≡ some m') × Represents m' (receive_all came ops)
unfolding register_all receive_all
register_all-Represents n [] m came e r h = (m, refl, r)
register_all-Represents n ((i, b) ∷ ops) m came e r h =
    let (m', free, e', r', more) = register_block-Represents m came i b r (rw e h.0) in
    let (m'', e'', r'') =
      register_all-Represents n ops m' (receive came i b) (length-receive came i b ∙ e) r' h.1 in
    (m'', rw (e', register_all) e'', r'')

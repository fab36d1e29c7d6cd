-- ===== src/Upload/Queue/Counts.antt =====
-- How often a client occurs in a list of the queue, and what each change of the list does to that.
use goed2k.Common.{
  ℕ, zero, suc, ◌+◌, ◌%◌, ◌^◌, ◌<◌, ◌≤◌, ◌≡◌, refl, ◌∙◌, List, [], ◌∷◌, ◌++◌, length, get_elem?,
  Bool, true, false, ◌&&◌, Option, none, some, none-ne-some, some-eq, ltb, ◌==◌, if◌then◌else◌,
  arith,
}
use goed2k.Upload.{Client}
use goed2k.Upload.Queue.{update, contains, remove, insert, sort_stable, rank_from}
use goed2k.Upload.Queue.Slots.{take_next}

unfoldable pub count : ℕ → List ℕ → ℕ
count x [] = 0
count x (y ∷ ys) = (if y == x then 1 else 0) + count x ys

pub count-append : (x : ℕ) (xs ys : List ℕ) → count x (xs ++ ys) ≡ count x xs + count x ys
unfolding count
count-append x [] ys = omega arith
count-append x (y ∷ xs) ys = omega (arith, count-append x xs ys)

pub count-single : (x y : ℕ) → count x (y ∷ []) ≡ (if y == x then 1 else 0)
unfolding count
count-single x y = omega arith

pub count-remove :
    (x y : ℕ) (ys : List ℕ)
    → count y ys ≡ count y (remove x ys) + (if y == x && contains x ys then 1 else 0)
unfolding count remove contains
count-remove x y [] = ground arith
count-remove x y (z ∷ zs) = ground (arith, count-remove x y zs)

pub contains-count : (x : ℕ) (xs : List ℕ) → contains x xs ≡ ltb 0 (count x xs)
unfolding count contains
contains-count x [] = ground arith
contains-count x (y ∷ ys) = ground (arith, contains-count x ys)

pub remove-absent : (x : ℕ) (xs : List ℕ) → contains x xs ≡ false → remove x xs ≡ xs
unfolding remove contains
remove-absent x [] h = refl
remove-absent x (y ∷ ys) h = ground (arith, remove-absent x ys)

pub length-remove : (x : ℕ) (xs : List ℕ) → length (remove x xs) ≤ length xs
unfolding remove
length-remove x [] = omega arith
length-remove x (y ∷ ys) = ground (arith, length-remove x ys)

count-insert :
    (lt : ℕ → ℕ → Bool) (x y : ℕ) (ys : List ℕ) → count x (insert lt y ys) ≡ count x (y ∷ ys)
unfolding count insert
count-insert lt x y [] = refl
count-insert lt x y (z ∷ zs) = ground (arith, count-insert lt x y zs)

pub count-sort_stable :
    (lt : ℕ → ℕ → Bool) (x : ℕ) (xs : List ℕ) → count x (sort_stable lt xs) ≡ count x xs
unfolding count sort_stable
count-sort_stable lt x [] = refl
count-sort_stable lt x (y ∷ ys) =
    omega (arith, count-insert lt x y (sort_stable lt ys), count-sort_stable lt x ys)

pub count-get : (i x : ℕ) (xs : List ℕ) → get_elem? xs i ≡ some x → 0 < count x xs
unfolding count
count-get i x [] e = absurd (none-ne-some e)
count-get zero x (y ∷ ys) e = ground (arith, some-eq e)
count-get (suc i) x (y ∷ ys) e = omega (arith, count-get i x ys e)

-- The state stays, and the rank of a client that is not in the list.
pub rank_from-state :
    (i : ℕ) (xs : List ℕ) (m : ℕ → Client) (x : ℕ) → (rank_from i xs m x).state ≡ (m x).state
unfolding rank_from update
rank_from-state i [] m x = refl
rank_from-state i (y ∷ ys) m x =
    rank_from-state (suc i) ys (update y (λ c. record c { queue_rank = suc i % 2 ^ 16 }) m) x
    ∙ ground arith

rank_from-absent :
    (i : ℕ) (xs : List ℕ) (m : ℕ → Client) (x : ℕ)
    → count x xs ≡ 0
    → (rank_from i xs m x).queue_rank ≡ (m x).queue_rank
unfolding rank_from update count
rank_from-absent i [] m x h = refl
rank_from-absent i (y ∷ ys) m x h =
    rank_from-absent (suc i) ys (update y (λ c. record c { queue_rank = suc i % 2 ^ 16 }) m) x
      (omega (arith, h))
    ∙ ground (arith, h)

pub rank_from-rank :
    (i j : ℕ) (xs : List ℕ) (m : ℕ → Client) (x : ℕ)
    → ((y : ℕ) → count y xs ≤ 1)
    → get_elem? xs j ≡ some x
    → (rank_from i xs m x).queue_rank ≡ suc (i + j) % 2 ^ 16
unfolding rank_from update count
rank_from-rank i j [] m x h e = absurd (none-ne-some e)
rank_from-rank i zero (y ∷ ys) m x h e =
    rank_from-absent (suc i) ys (update y (λ c. record c { queue_rank = suc i % 2 ^ 16 }) m) x
      (ground (arith, h x, some-eq e))
    ∙ ground (arith, some-eq e)
rank_from-rank i (suc j) (y ∷ ys) m x h e =
    rank_from-rank (suc i) j ys (update y (λ c. record c { queue_rank = suc i % 2 ^ 16 }) m) x
      (λ z. omega (arith, h z)) e
    ∙ omega arith

-- Nobody changes his state or rank, and only the client that is taken leaves the list.
pub take_next-state :
    (xs : List ℕ) (m : ℕ → Client) (x : ℕ) → ((take_next xs m).0 x).state ≡ (m x).state
unfolding take_next update
take_next-state [] m x = refl
take_next-state (y ∷ ys) m x =
    ground (arith, take_next-state ys (update y (λ c. record c { add_next = true }) m) x)

abbrev pub taken : ℕ → Option ℕ → ℕ
taken x none = 0
taken x (some y) = if y == x then 1 else 0

pub take_next-count :
    (xs : List ℕ) (m : ℕ → Client) (x : ℕ)
    → count x xs ≡ taken x (take_next xs m).1 + count x (take_next xs m).2
unfolding take_next count
take_next-count [] m x = refl
take_next-count (y ∷ ys) m x =
    ground (arith, take_next-count ys (update y (λ c. record c { add_next = true }) m) x)

-- When nobody is taken, everyone still waits.
pub take_next-none :
    (xs : List ℕ) (m : ℕ → Client) → (take_next xs m).1 ≡ none → (take_next xs m).2 ≡ xs
unfolding take_next
take_next-none [] m e = refl
take_next-none (y ∷ ys) m e =
    ground (arith, take_next-none ys (update y (λ c. record c { add_next = true }) m))

pub take_next-rank :
    (xs : List ℕ) (m : ℕ → Client) (x : ℕ) → ((take_next xs m).0 x).queue_rank ≡ (m x).queue_rank
unfolding take_next update
take_next-rank [] m x = refl
take_next-rank (y ∷ ys) m x =
    ground (arith, take_next-rank ys (update y (λ c. record c { add_next = true }) m) x)

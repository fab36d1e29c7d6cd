-- ===== src/Upload/Queue/Invariant.antt =====
-- What holds of the queue between its operations, and that the operations on the lists keep it.
pub mod Leaving
pub mod Clients
pub mod Requests
pub mod Rounds
pub mod Histories
use goed2k.Common.{
  ℕ, zero, suc, ◌+◌, ◌%◌, ◌^◌, ◌<◌, ◌≤◌, ◌≡◌, ◌≢◌, refl, sym, ap, ◌∙◌, List, [], ◌∷◌, ◌++◌, length,
  length-append, get_elem?, Bool, true, false, ◌&&◌, ◌||◌, not, Option, none, some, ltb, leb, ◌==◌,
  if◌then◌else◌, arith, Bool-cases, inl, inr,
}
use goed2k.Upload.{
  UploadState, idle, on_queue, uploading, connecting, Client, set_upload_state,
  clear_upload_block_requests,
}
use goed2k.Upload.Queue.{
  Env, UploadQueue, update, on_client, contains, remove, rank_from, recompute_ranks, sort_waiting,
  remove_from_waiting_queue, remove_from_upload_queue,
}
use goed2k.Upload.Queue.Counts.{
  count, count-remove, contains-count, remove-absent, length-remove, count-sort_stable, count-get,
  rank_from-state, rank_from-rank,
}

abbrev pub uploads : UploadState → ℕ
uploads uploading = 1
uploads _ = 0

abbrev pub waits : UploadState → ℕ
waits on_queue = 1
waits _ = 0

-- The lists hold the clients that have the state for it, each of them once.
abbrev pub States : (ℕ → Client) → List ℕ → List ℕ → Type 0
States m w u = (x : ℕ) → (count x u ≡ uploads (m x).state) × (count x w ≡ waits (m x).state)

-- Moreover a rank is the place in the waiting list, counted from 1 in 16 bits, and there are at most
-- 251 uploads.
pub record Sound (m : ℕ → Client) (w u : List ℕ) : Type 0 where
  pub states : States m w u
  pub ranks : (i x : ℕ) → get_elem? w i ≡ some x → (m x).queue_rank ≡ suc i % 2 ^ 16
  pub slots : length u ≤ 251

abbrev pub IsSound : UploadQueue → Type 0
IsSound q = Sound q.client q.waiting q.uploading

pub at_most_once : (m : ℕ → Client) (w u : List ℕ) → States m w u → (x : ℕ) → count x w ≤ 1
at_most_once m w u s x = ground (arith, s x)

pub rank_from-Sound :
    (m : ℕ → Client) (w u : List ℕ) → States m w u → length u ≤ 251 → Sound (rank_from 0 w m) w u
rank_from-Sound m w u s l = record {
  states = λ x. simp (rank_from-state 0 w m x) (s x);
  ranks = λ i x e. rank_from-rank 0 i w m x (at_most_once m w u s) e ∙ omega arith;
  slots = l;
}

pub recompute_ranks-IsSound :
    (q : UploadQueue)
    → States q.client q.waiting q.uploading
    → length q.uploading ≤ 251
    → IsSound (recompute_ranks q)
unfolding recompute_ranks
recompute_ranks-IsSound q s l = rank_from-Sound q.client q.waiting q.uploading s l

pub sort_waiting-IsSound :
    (env : Env) (q : UploadQueue)
    → States q.client q.waiting q.uploading
    → length q.uploading ≤ 251
    → IsSound (sort_waiting env q)
unfolding sort_waiting recompute_ranks
sort_waiting-IsSound env q s l =
    rank_from-Sound q.client (sort_waiting env q).waiting q.uploading
      (λ x. ((s x).0, count-sort_stable _ x q.waiting ∙ (s x).1)) l

-- A function that leaves the state and the rank of a client alone.
abbrev pub Keeps : (Client → Client) → Type 0
Keeps f = (c : Client) → ((f c).state ≡ c.state) × ((f c).queue_rank ≡ c.queue_rank)

update_field {ℓ} :
    {A : Type ℓ} (field : Client → A) (x : ℕ) (f : Client → Client) (m : ℕ → Client) (y : ℕ)
    → ((c : Client) → field (f c) ≡ field c)
    → field (update x f m y) ≡ field (m y)
unfolding update
update_field field x f m y h = elim (Bool-cases (y == x)) [
  | inl e ↦ rw e (h (m y))
  | inr e ↦ rw e refl
]

pub Keeps-IsSound :
    (x : ℕ) (f : Client → Client) (q : UploadQueue)
    → Keeps f
    → IsSound q
    → IsSound (on_client x f q)
Keeps-IsSound x f q k s = record {
  states = λ y. simp (update_field (λ c. c.state) x f q.client y (λ c. (k c).0)) (s.states y);
  ranks = λ i y e. update_field (λ c. c.queue_rank) x f q.client y (λ c. (k c).1) ∙ s.ranks i y e;
  slots = s.slots;
}

replaced_field {ℓ} :
    {A : Type ℓ} (field : Client → A) (x : ℕ) (c : Client) (m : ℕ → Client) (y : ℕ)
    → field c ≡ field (m x)
    → field (update x (λ _. c) m y) ≡ field (m y)
unfolding update
replaced_field field x c m y h = elim (Bool-cases (y == x)) [
  | inl e ↦ let same : x ≡ y = ground (arith, e) in rw e (h ∙ ap (λ (z : ℕ). field (m z)) same)
  | inr e ↦ rw e refl
]

-- A client is replaced by one with the same state and rank.
pub replaced-IsSound :
    (x : ℕ) (c : Client) (q : UploadQueue)
    → c.state ≡ (q.client x).state
    → c.queue_rank ≡ (q.client x).queue_rank
    → IsSound q
    → IsSound (on_client x (λ _. c) q)
replaced-IsSound x c q hs hr s = record {
  states = λ y. simp (replaced_field (λ d. d.state) x c q.client y hs) (s.states y);
  ranks = λ i y e. replaced_field (λ d. d.queue_rank) x c q.client y hr ∙ s.ranks i y e;
  slots = s.slots;
}

-- A change of one client that is in neither list afterwards.
pub idle-States :
    (x : ℕ) (f : Client → Client) (m : ℕ → Client) (w u : List ℕ)
    → (f (m x)).state ≡ idle
    → States m w u
    → States (update x f m) (remove x w) (remove x u)
unfolding update
idle-States x f m w u h s y = ground (
  arith,
  h,
  s y,
  count-remove x y w,
  count-remove x y u,
  contains-count x w,
  contains-count x u,
  s x,
)

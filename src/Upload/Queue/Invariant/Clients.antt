-- ===== src/Upload/Queue/Invariant/Clients.antt =====
-- A client that gets a slot, or a place in the waiting list, leaves the queue sound.
use goed2k.Common.{
  ℕ, suc, ◌+◌, ◌%◌, ◌^◌, ◌≤◌, ◌≡◌, refl, ap, ◌∙◌, List, [], ◌∷◌, ◌++◌, length, length-append,
  get_elem?, false, none, some, Option-cases, ◌==◌, if◌then◌else◌, arith, Bool-cases, inl, inr,
}
use goed2k.Upload.{uploading, Client, set_upload_state, reset_upload_session}
use goed2k.Upload.Queue.{Env, UploadQueue, update, contains, max_slots, rank_from, recompute_ranks}
use goed2k.Upload.Queue.Slots.{take_next, uploader, accepted, start_upload, add_up_next_client}
use goed2k.Upload.Queue.Counts.{
  count, count-append, count-single, contains-count, count-get, take_next-state, take_next-count,
  take_next-none, take_next-rank, rank_from-state, rank_from-rank,
}
use goed2k.Upload.Queue.Invariant.{States, Sound, IsSound, at_most_once, waits, uploads}

pub max_slots_le : (env : Env) → max_slots env ≤ 250
unfolding max_slots
max_slots_le env = ground arith

-- The lists are right for all but one client, who is in neither.
pub record AllBut (x : ℕ) (m : ℕ → Client) (w u : List ℕ) : Type 0 where
  pub others :
      (y : ℕ)
      → (y == x) ≡ false
      → (count y u ≡ uploads (m y).state) × (count y w ≡ waits (m y).state)
  pub not_waiting : count x w ≡ 0
  pub not_uploading : count x u ≡ 0
  pub ranks : (i y : ℕ) → get_elem? w i ≡ some y → (m y).queue_rank ≡ suc i % 2 ^ 16

start_States :
    (x : ℕ) (f : Client → Client) (m : ℕ → Client) (w u : List ℕ)
    → (f (m x)).state ≡ uploading
    → AllBut x m w u
    → States (update x f m) w (u ++ (x ∷ []))
unfolding update
start_States x f m w u h b y = ground (
  arith,
  h,
  b.others y,
  b.not_waiting,
  b.not_uploading,
  count-append y u (x ∷ []),
  count-single y x,
)

update_other :
    (x y : ℕ) (f : Client → Client) (m : ℕ → Client) → (y == x) ≡ false → update x f m y ≡ m y
unfolding update
update_other x y f m e = rw e refl

not_member : (i x y : ℕ) (w : List ℕ) → count x w ≡ 0 → get_elem? w i ≡ some y → (y == x) ≡ false
not_member i x y w h e = elim (Bool-cases (y == x)) [
  | inl q ↦
      let same : y ≡ x = ground (arith, q) in
      absurd (omega (arith, count-get i y w e, h, ap (λ (z : ℕ). count z w) same))
  | inr q ↦ q
]

start_Sound :
    (x : ℕ) (f : Client → Client) (m : ℕ → Client) (w u : List ℕ)
    → (f (m x)).state ≡ uploading
    → length u ≤ 250
    → AllBut x m w u
    → Sound (update x f m) w (u ++ (x ∷ []))
start_Sound x f m w u h l b = record {
  states = start_States x f m w u h b;
  ranks = λ i y e.
      ap (λ (c : Client). c.queue_rank) (update_other x y f m (not_member i x y w b.not_waiting e))
      ∙ b.ranks i y e;
  slots = omega (arith, length-append {0} u (x ∷ []), l);
}

accepted_lem : (env : Env) (c : Client) → (accepted (uploader env c)).state ≡ uploading
unfolding reset_upload_session set_upload_state
accepted_lem env c = elim (Bool-cases c.has_socket) [ inl e ↦ rw e refl | inr e ↦ rw e refl ]

start_upload-new :
    (env : Env) (x : ℕ) (q : UploadQueue)
    → length q.uploading ≤ 250
    → AllBut x q.client q.waiting q.uploading
    → IsSound (start_upload env x q)
unfolding start_upload
start_upload-new env x q l b =
    let absent : contains x q.uploading ≡ false =
      ground (arith, contains-count x q.uploading, b.not_uploading) in
    rw absent (
      start_Sound x (λ c. accepted (uploader env c)) q.client q.waiting q.uploading
        (accepted_lem env (q.client x)) l b)

absent-AllBut :
    (x : ℕ) (q : UploadQueue)
    → contains x q.waiting ≡ false
    → contains x q.uploading ≡ false
    → IsSound q
    → AllBut x q.client q.waiting q.uploading
absent-AllBut x q hw hu s = record {
  others = λ y e. s.states y;
  not_waiting = ground (arith, hw, contains-count x q.waiting);
  not_uploading = ground (arith, hu, contains-count x q.uploading);
  ranks = s.ranks;
}

pub start_upload-IsSound :
    (env : Env) (x : ℕ) (q : UploadQueue)
    → contains x q.waiting ≡ false
    → length q.uploading ≤ 250
    → IsSound q
    → IsSound (start_upload env x q)
start_upload-IsSound env x q h l s = elim (Bool-cases (contains x q.uploading)) [
  | inl e ↦ unfold start_upload in (rw e s)
  | inr e ↦ start_upload-new env x q l (absent-AllBut x q h e s)
]

-- Nobody is taken from the waiting list: only marks are set.
nobody_taken :
    (q : UploadQueue)
    → (take_next q.waiting q.client).1 ≡ none
    → IsSound q
    → Sound (take_next q.waiting q.client).0 (take_next q.waiting q.client).2 q.uploading
nobody_taken q e s = rw (take_next-none q.waiting q.client e) (record {
  states = λ x. simp (take_next-state q.waiting q.client x) (s.states x);
  ranks = λ i x g. take_next-rank q.waiting q.client x ∙ s.ranks i x g;
  slots = s.slots;
})

taken_count :
    (x y : ℕ) (q : UploadQueue)
    → (take_next q.waiting q.client).1 ≡ some x
    → count y q.waiting ≡ (if x == y then 1 else 0) + count y (take_next q.waiting q.client).2
taken_count x y q e = simp (e) at (take_next-count q.waiting q.client y)

-- The rest of the list without the client that was taken, with new ranks.
somebody_taken :
    (x : ℕ) (q : UploadQueue)
    → (take_next q.waiting q.client).1 ≡ some x
    → IsSound q
    → AllBut x
        (rank_from 0 (take_next q.waiting q.client).2 (take_next q.waiting q.client).0)
        (take_next q.waiting q.client).2
        q.uploading
somebody_taken x q e s =
    let m' = (take_next q.waiting q.client).0 in
    let w' = (take_next q.waiting q.client).2 in
    let same = λ (y : ℕ). rank_from-state 0 w' m' y ∙ take_next-state q.waiting q.client y in
    let once = at_most_once q.client q.waiting q.uploading s.states in
    record {
      others = λ y n. rw (same y) (ground (arith, s.states y, taken_count x y q e, n));
      not_waiting = ground (arith, taken_count x x q e, once x);
      not_uploading = ground (arith, taken_count x x q e, s.states x);
      ranks = λ i y g.
          rank_from-rank 0 i w' m' y (λ z. omega (arith, once z, taken_count x z q e)) g
          ∙ omega arith;
    }

pub add_up_next_client-IsSound :
    (env : Env) (q : UploadQueue)
    → length q.uploading ≤ 250
    → IsSound q
    → IsSound (add_up_next_client env none q)
add_up_next_client-IsSound env q l s = elim (Option-cases (take_next q.waiting q.client).1) [
  | inl e ↦ unfold add_up_next_client in (rw (add_up_next_client, e) (nobody_taken q e s))
  | inr (x, e) ↦
      unfold add_up_next_client recompute_ranks in
      (rw (add_up_next_client, e) (start_upload-new env x _ l (somebody_taken x q e s)))
]

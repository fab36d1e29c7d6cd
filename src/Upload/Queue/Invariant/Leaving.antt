-- ===== src/Upload/Queue/Invariant/Leaving.antt =====
-- A client that leaves the queue leaves it sound.
use goed2k.Common.{ℕ, ◌≡◌, refl, ◌∙◌, List, true, false, if◌then◌else◌, arith, Bool-cases, inl, inr}
use goed2k.Upload.{idle, Client, set_upload_state, clear_upload_block_requests}
use goed2k.Upload.Queue.{
  UploadQueue, left_waiting, removed_client, update, on_client, contains, remove, recompute_ranks,
  remove_from_waiting_queue, remove_from_upload_queue,
}
use goed2k.Upload.Queue.Counts.{count-remove, contains-count, remove-absent, length-remove}
use goed2k.Upload.Queue.Invariant.{
  States, Sound, IsSound, rank_from-Sound, idle-States, update_field,
}

-- Who waits has no slot, and who has one does not wait.
not_both :
    (m : ℕ → Client) (w u : List ℕ) (x : ℕ)
    → States m w u
    → contains x w ≡ true
    → contains x u ≡ false
not_both m w u x s h = ground (arith, s x, h, contains-count x w, contains-count x u)

not_both' :
    (m : ℕ → Client) (w u : List ℕ) (x : ℕ)
    → States m w u
    → contains x u ≡ true
    → contains x w ≡ false
not_both' m w u x s h = ground (arith, s x, h, contains-count x w, contains-count x u)

removed_absent :
    (m : ℕ → Client) (w u : List ℕ) (x : ℕ) → States m w u → contains x (remove x w) ≡ false
removed_absent m w u x s =
    ground (arith, s x, count-remove x x w, contains-count x w, contains-count x (remove x w))

-- A client in neither list can be changed, but for its rank, so that it has no state for them.
absent-Sound :
    (x : ℕ) (f : Client → Client) (m : ℕ → Client) (w u : List ℕ)
    → ((c : Client) → ((f c).state ≡ idle) × ((f c).queue_rank ≡ c.queue_rank))
    → contains x w ≡ false
    → contains x u ≡ false
    → Sound m w u
    → Sound (update x f m) w u
absent-Sound x f m w u k hw hu s = record {
  states =
      simp (remove-absent x w hw, remove-absent x u hu) at
        (idle-States x f m w u (k (m x)).0 s.states);
  ranks = λ i y e. update_field (λ c. c.queue_rank) x f m y (λ c. (k c).1) ∙ s.ranks i y e;
  slots = s.slots;
}

waiting-Sound :
    (x : ℕ) (m : ℕ → Client) (w u : List ℕ)
    → contains x w ≡ true
    → Sound m w u
    → States (update x left_waiting m) (remove x w) u
unfolding set_upload_state
waiting-Sound x m w u h s =
    simp (remove-absent x u (not_both m w u x s.states h)) at
      (idle-States x left_waiting m w u refl s.states)

pub remove_from_waiting_queue-IsSound :
    (x : ℕ) (q : UploadQueue) → IsSound q → IsSound (remove_from_waiting_queue x q).0
unfolding remove_from_waiting_queue recompute_ranks
remove_from_waiting_queue-IsSound x q s = elim (Bool-cases (contains x q.waiting)) [
  | inl h ↦ rw h (
      rank_from-Sound (update x left_waiting q.client) (remove x q.waiting) q.uploading
        (waiting-Sound x q.client q.waiting q.uploading h s) s.slots)
  | inr h ↦ rw h s
]

pub remove_from_waiting_queue-absent :
    (x : ℕ) (q : UploadQueue)
    → IsSound q
    → contains x (remove_from_waiting_queue x q).0.waiting ≡ false
unfolding remove_from_waiting_queue recompute_ranks
remove_from_waiting_queue-absent x q s = elim (Bool-cases (contains x q.waiting)) [
  | inl h ↦ rw h (removed_absent q.client q.waiting q.uploading x s.states)
  | inr h ↦ rw h h
]

pub remove_from_waiting_queue-uploading :
    (x : ℕ) (q : UploadQueue) → (remove_from_waiting_queue x q).0.uploading ≡ q.uploading
unfolding remove_from_waiting_queue recompute_ranks
remove_from_waiting_queue-uploading x q = ground arith

removed_client_lem :
    (c : Client)
    → ((removed_client c).state ≡ idle) × ((removed_client c).queue_rank ≡ c.queue_rank)
unfolding set_upload_state clear_upload_block_requests
removed_client_lem c = (refl, refl)

remove_waiting-IsSound :
    (x : ℕ) (q : UploadQueue)
    → contains x q.uploading ≡ false
    → IsSound q
    → IsSound (on_client x removed_client (remove_from_waiting_queue x q).0)
remove_waiting-IsSound x q h s =
    absent-Sound x removed_client _ _ _ removed_client_lem (remove_from_waiting_queue-absent x q s)
      (rw (remove_from_waiting_queue-uploading x q) h) (remove_from_waiting_queue-IsSound x q s)

remove_uploading-IsSound :
    (x : ℕ) (q : UploadQueue)
    → contains x q.uploading ≡ true
    → IsSound q
    → Sound (update x removed_client q.client) q.waiting (remove x q.uploading)
remove_uploading-IsSound x q h s = record {
  states =
      simp (remove-absent x q.waiting (not_both' q.client q.waiting q.uploading x s.states h)) at (
        idle-States x removed_client q.client q.waiting q.uploading
          (removed_client_lem (q.client x)).0 s.states);
  ranks = λ i y e.
      update_field (λ c. c.queue_rank) x removed_client q.client y (λ c. (removed_client_lem c).1)
      ∙ s.ranks i y e;
  slots = omega (arith, length-remove x q.uploading, s.slots);
}

upload_removed :
    (x : ℕ) (q : UploadQueue)
    → contains x q.uploading ≡ true
    → contains x q.waiting ≡ false
    → (remove_from_upload_queue x q).0
      ≡ on_client x removed_client (record q { uploading = remove x q.uploading })
unfolding remove_from_upload_queue remove_from_waiting_queue
upload_removed x q h k = rw (h, k) refl

wait_removed :
    (x : ℕ) (q : UploadQueue)
    → contains x q.uploading ≡ false
    → (remove_from_upload_queue x q).0 ≡ (
        if (remove_from_waiting_queue x q).1
        then on_client x removed_client (remove_from_waiting_queue x q).0
        else (remove_from_waiting_queue x q).0)
unfolding remove_from_upload_queue
wait_removed x q h = rw (h, remove-absent x q.uploading h) refl

pub remove_from_upload_queue-IsSound :
    (x : ℕ) (q : UploadQueue) → IsSound q → IsSound (remove_from_upload_queue x q).0
remove_from_upload_queue-IsSound x q s = elim (Bool-cases (contains x q.uploading)) [
  | inl h ↦
      rw (upload_removed x q h (not_both' q.client q.waiting q.uploading x s.states h))
        (remove_uploading-IsSound x q h s)
  | inr h ↦ rw (wait_removed x q h) (elim (Bool-cases (remove_from_waiting_queue x q).1) [
    | inl r ↦ rw r (remove_waiting-IsSound x q h s)
    | inr r ↦ rw r (remove_from_waiting_queue-IsSound x q s)
  ])
]

uploads_absent :
    (m : ℕ → Client) (w u : List ℕ) (x : ℕ) → States m w u → contains x (remove x u) ≡ false
uploads_absent m w u x s =
    ground (arith, s x, count-remove x x u, contains-count x u, contains-count x (remove x u))

abbrev pub IsAbsent : ℕ → UploadQueue → Type 0
IsAbsent x q = (contains x q.waiting ≡ false) × (contains x q.uploading ≡ false)

pub remove_from_upload_queue-IsAbsent :
    (x : ℕ) (q : UploadQueue) → IsSound q → IsAbsent x (remove_from_upload_queue x q).0
remove_from_upload_queue-IsAbsent x q s = elim (Bool-cases (contains x q.uploading)) [
  | inl h ↦
      let k = not_both' q.client q.waiting q.uploading x s.states h in
      rw (upload_removed x q h k) (k, uploads_absent q.client q.waiting q.uploading x s.states)
  | inr h ↦
      let no_wait = remove_from_waiting_queue-absent x q s in
      let no_slot : contains x (remove_from_waiting_queue x q).0.uploading ≡ false =
        rw (remove_from_waiting_queue-uploading x q) h in
      rw (wait_removed x q h) (elim (Bool-cases (remove_from_waiting_queue x q).1) [
        | inl r ↦ rw r (no_wait, no_slot)
        | inr r ↦ rw r (no_wait, no_slot)
      ])
]

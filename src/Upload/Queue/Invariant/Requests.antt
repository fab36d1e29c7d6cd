-- ===== src/Upload/Queue/Invariant/Requests.antt =====
-- A request for a slot leaves the queue sound, whatever its answer.
use goed2k.Common.{
  ℕ, ◌+◌, ◌-◌, ◌≤◌, ◌≡◌, refl, List, [], ◌∷◌, ◌++◌, length, Bool, false, ◌&&◌, ltb, leb, ◌==◌,
  if◌then◌else◌, arith, Bool-cases, inl, inr,
}
use goed2k.Upload.{on_queue, Client, accept_upload, send, set_upload_state}
use goed2k.Upload.Queue.{
  Env, UploadQueue, update, on_client, contains, max_slots, sort_waiting, remove_from_waiting_queue,
}
use goed2k.Upload.Queue.Slots.{
  start_upload, add_up_next_client, tell_rank, asked, may_wait, new_waiting, not_next, not_waiting,
  ask_again, ask_first, add_client_to_queue,
}
use goed2k.Upload.Queue.Counts.{count-append, count-single, contains-count}
use goed2k.Upload.Queue.Invariant.{States, IsSound, Keeps-IsSound, sort_waiting-IsSound}
use goed2k.Upload.Queue.Invariant.Leaving.{
  remove_from_waiting_queue-IsSound, remove_from_waiting_queue-absent,
  remove_from_waiting_queue-uploading,
}
use goed2k.Upload.Queue.Invariant.Clients.{max_slots_le, start_upload-IsSound}

-- A client in neither list that gets the state of waiting is put at the end of the waiting list.
queued_States :
    (x : ℕ) (f : Client → Client) (m : ℕ → Client) (w u : List ℕ)
    → (f (m x)).state ≡ on_queue
    → contains x w ≡ false
    → contains x u ≡ false
    → States m w u
    → States (update x f m) (w ++ (x ∷ [])) u
unfolding update
queued_States x f m w u h hw hu s y = ground (
  arith,
  h,
  s y,
  hw,
  hu,
  contains-count x w,
  contains-count x u,
  count-append y w (x ∷ []),
  count-single y x,
)

pub queued-IsSound :
    (env : Env) (x : ℕ) (f : Client → Client) (q : UploadQueue)
    → (f (q.client x)).state ≡ on_queue
    → contains x q.waiting ≡ false
    → contains x q.uploading ≡ false
    → IsSound q
    → IsSound (
        on_client x tell_rank
          (sort_waiting env (record (on_client x f q) { waiting = q.waiting ++ (x ∷ []) })))
queued-IsSound env x f q h hw hu s =
    let longer : UploadQueue = record (on_client x f q) { waiting = q.waiting ++ (x ∷ []) } in
    Keeps-IsSound x tell_rank (sort_waiting env longer) (λ c. (refl, refl))
      (sort_waiting-IsSound env longer
        (queued_States x f q.client q.waiting q.uploading h hw hu s.states) s.slots)

next_upload-IsSound :
    (env : Env) (x : ℕ) (q : UploadQueue)
    → length q.uploading ≤ 250
    → IsSound q
    → IsSound (start_upload env x (remove_from_waiting_queue x q).0)
next_upload-IsSound env x q l s =
    start_upload-IsSound env x _ (remove_from_waiting_queue-absent x q s)
      (rw (remove_from_waiting_queue-uploading x q) l) (remove_from_waiting_queue-IsSound x q s)

ask_again-IsSound : (env : Env) (x : ℕ) (q : UploadQueue) → IsSound q → IsSound (ask_again env x q)
unfolding ask_again add_up_next_client
ask_again-IsSound env x q s =
    let slots : ℕ =
      if (q.client x).add_next && q.last_slot_high_id then max_slots env + 1 else max_slots env in
    elim (Bool-cases ((q.client x).add_next && ltb (length q.uploading) slots)) [
      | inl e ↦ rw e (
          next_upload-IsSound env x (on_client x not_next q) (ground (arith, e, max_slots_le env))
            (Keeps-IsSound x not_next q (λ c. (refl, refl)) s))
      | inr e ↦ rw e (Keeps-IsSound x tell_rank q (λ c. (refl, refl)) s)
    ]

new_waiting_lem : (env : Env) (c : Client) → (new_waiting env c).state ≡ on_queue
unfolding set_upload_state
new_waiting_lem env c = refl

ask_first-IsSound :
    (env : Env) (x : ℕ) (q : UploadQueue)
    → contains x q.waiting ≡ false
    → contains x q.uploading ≡ false
    → IsSound q
    → IsSound (ask_first env x q)
unfolding ask_first add_up_next_client
ask_first-IsSound env x q hw hu s =
    let q' : UploadQueue = on_client x not_waiting q in
    let s' : IsSound q' = Keeps-IsSound x not_waiting q (λ c. (refl, refl)) s in
    let full : Bool = ltb 0 env.upload_queue_size && leb env.upload_queue_size (length q.waiting) in
    let free : Bool =
      length q.waiting == 0
      && leb 1000 (env.now - q.last_start_upload)
      && ltb (length q.uploading) (max_slots env) in
    elim (Bool-cases full) [
      | inl e ↦ rw e s
      | inr e ↦ elim (Bool-cases free) [
        | inl g ↦
            rw (e, g) (start_upload-IsSound env x q' hw (ground (arith, g, max_slots_le env)) s')
        | inr g ↦
            rw (e, g)
              (queued-IsSound env x (new_waiting env) q' (new_waiting_lem env (q'.client x)) hw hu
                s')
      ]
    ]

pub add_client_to_queue-IsSound :
    (env : Env) (x : ℕ) (q : UploadQueue) → IsSound q → IsSound (add_client_to_queue env x q)
unfolding add_client_to_queue
add_client_to_queue-IsSound env x q s =
    let q' : UploadQueue = on_client x (asked env) q in
    let s' : IsSound q' = Keeps-IsSound x (asked env) q (λ c. (refl, refl)) s in
    elim (Bool-cases (q.client x).disconnecting) [
      | inl e ↦ rw e s
      | inr e ↦ elim (Bool-cases (contains x q.waiting)) [
        | inl hw ↦ rw (e, hw) (ask_again-IsSound env x q' s')
        | inr hw ↦ elim (Bool-cases (contains x q.uploading)) [
          | inl hu ↦ rw (e, hw, hu) (Keeps-IsSound x (send accept_upload) q' (λ c. (refl, refl)) s')
          | inr hu ↦ elim (Bool-cases (may_wait q (q.client x))) [
            | inl g ↦ rw (e, hw, hu, g) (ask_first-IsSound env x q' hw hu s')
            | inr g ↦ rw (e, hw, hu, g) s'
          ]
        ]
      ]
    ]

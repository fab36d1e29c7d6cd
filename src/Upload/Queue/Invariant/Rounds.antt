-- ===== src/Upload/Queue/Invariant/Rounds.antt =====
-- A round over the slots leaves the queue sound, and so does the suspension of a file.
use goed2k.Common.{
  ℕ, ◌-◌, ◌≡◌, refl, List, [], ◌∷◌, length, Bool, true, false, ◌||◌, not, Option, none, some,
  Option-cases, ltb, ◌==◌, arith, Bool-cases, inl, inr,
}
use goed2k.Upload.{
  on_queue, RequestedUploadBlock, Client, out_of_parts, send, set_upload_state, is_uploading_state,
  clear_upload_block_requests,
}
use goed2k.Upload.Send.{Sent, nothing, refused, failed, complete, send_first_block, with_payload}
use goed2k.Upload.Send.Parts.{send_payload-Tiles}
use goed2k.Upload.Queue.{Env, UploadQueue, on_client, max_slots, remove_from_upload_queue}
use goed2k.Upload.Queue.Slots.{
  waiting_again, check_for_time_over, send_out_of_part_reqs_and_add_to_waiting_queue, after_block,
  send_block_data, serve, serve_all, fill_slot, process, shares, suspend_client, suspend_all,
  suspend_upload,
}
use goed2k.Upload.Queue.Invariant.{IsSound, Keeps-IsSound, replaced-IsSound, sort_waiting-IsSound}
use goed2k.Upload.Queue.Invariant.Leaving.{
  remove_from_upload_queue-IsSound, remove_from_upload_queue-IsAbsent,
}
use goed2k.Upload.Queue.Invariant.Clients.{max_slots_le, add_up_next_client-IsSound}
use goed2k.Upload.Queue.Invariant.Requests.{queued-IsSound, add_client_to_queue-IsSound}

check_for_time_over-same :
    (env : Env) (x : ℕ) (q : UploadQueue)
    → (check_for_time_over env x q).0
      ≡ record q { allow_kicking = (check_for_time_over env x q).0.allow_kicking }
unfolding check_for_time_over
check_for_time_over-same env x q = ground arith

check_for_time_over-IsSound :
    (env : Env) (x : ℕ) (q : UploadQueue) → IsSound q → IsSound (check_for_time_over env x q).0
check_for_time_over-IsSound env x q s = rw (check_for_time_over-same env x q) s

send_out_of_parts-IsSound :
    (env : Env) (x : ℕ) (q : UploadQueue)
    → IsSound q
    → IsSound (send_out_of_part_reqs_and_add_to_waiting_queue env x q)
unfolding send_out_of_part_reqs_and_add_to_waiting_queue
send_out_of_parts-IsSound env x q s =
    let f : Client → Client = λ c. clear_upload_block_requests (send out_of_parts c) in
    add_client_to_queue-IsSound env x (on_client x f q)
      (Keeps-IsSound x f q (unfold clear_upload_block_requests in λ c. (refl, refl)) s)

-- What the block takes with it is not the state or the rank.
abbrev Kept : Client → Client → Type 0
Kept c d = (d.state ≡ c.state) × (d.queue_rank ≡ c.queue_rank)

with_payload-Kept :
    (b : RequestedUploadBlock) (c : Client) (o : Option (List ℕ)) → Kept c (with_payload b c o).0
with_payload-Kept b c none = (refl, refl)
with_payload-Kept b c (some []) = (refl, refl)
with_payload-Kept b c (some (x ∷ xs)) = rw ((send_payload-Tiles b.begin (x ∷ xs) c).1) (refl, refl)

send_first_block-Kept :
    (can : ℕ → ℕ → Bool) (read : ℕ → ℕ → Option (List ℕ)) (bs : List RequestedUploadBlock)
    (c : Client)
    → Kept c (send_first_block can read bs c).0
unfolding send_first_block
send_first_block-Kept can read [] c = (refl, refl)
send_first_block-Kept can read (b ∷ bs) c =
    let c' : Client = record c { blocks = bs } in
    elim (Option-cases c.transfer) [
      | inl e ↦ rw (send_first_block, e) (refl, refl)
      | inr (t, e) ↦ elim (Bool-cases (can b.begin b.end)) [
        | inl g ↦ rw (send_first_block, e, g) (with_payload-Kept b c' (read b.begin b.end))
        | inr g ↦ rw (send_first_block, e, g) (refl, refl)
      ]
    ]

after_block-IsSound :
    (env : Env) (x : ℕ) (q : UploadQueue) (r : Client × Sent)
    → Kept (q.client x) r.0
    → IsSound q
    → IsSound (after_block env x q r)
unfolding after_block
after_block-IsSound env x q (c, nothing) k s = replaced-IsSound x c q k.0 k.1 s
after_block-IsSound env x q (c, complete) k s = replaced-IsSound x c q k.0 k.1 s
after_block-IsSound env x q (c, failed) k s =
    remove_from_upload_queue-IsSound x (on_client x (λ _. c) q) (replaced-IsSound x c q k.0 k.1 s)
after_block-IsSound env x q (c, refused) k s =
    send_out_of_parts-IsSound env x (on_client x (λ _. c) q) (replaced-IsSound x c q k.0 k.1 s)

pub send_block_data-IsSound :
    (env : Env) (x : ℕ) (q : UploadQueue) → IsSound q → IsSound (send_block_data env x q)
unfolding send_block_data
send_block_data-IsSound env x q s =
    let over = check_for_time_over env x q in
    elim (Bool-cases (is_uploading_state (q.client x).state)) [
      | inr e ↦ rw e s
      | inl e ↦ elim (Bool-cases over.1) [
        | inl g ↦
            rw (e, g)
              (send_out_of_parts-IsSound env x (remove_from_upload_queue x over.0).0
                (remove_from_upload_queue-IsSound x over.0 (check_for_time_over-IsSound env x q s)))
        | inr g ↦
            rw (e, g)
              (after_block-IsSound env x q
                (send_first_block (env.can_upload_range x) (env.read_range x) (q.client x).blocks
                  (q.client x))
                (send_first_block-Kept (env.can_upload_range x) (env.read_range x)
                  (q.client x).blocks (q.client x))
                s)
      ]
    ]

serve-IsSound : (env : Env) (x : ℕ) (q : UploadQueue) → IsSound q → IsSound (serve env x q)
unfolding serve
serve-IsSound env x q s =
    elim (Bool-cases ((q.client x).disconnecting || not (q.client x).has_socket)) [
      | inl e ↦ rw e (remove_from_upload_queue-IsSound x q s)
      | inr e ↦ rw e (send_block_data-IsSound env x q s)
    ]

serve_all-IsSound :
    (env : Env) (xs : List ℕ) (q : UploadQueue) → IsSound q → IsSound (serve_all env xs q)
unfolding serve_all
serve_all-IsSound env [] q s = s
serve_all-IsSound env (x ∷ xs) q s =
    serve_all-IsSound env xs (serve env x q) (serve-IsSound env x q s)

fill_slot-IsSound : (env : Env) (q : UploadQueue) → IsSound q → IsSound (fill_slot env q)
unfolding fill_slot
fill_slot-IsSound env q s =
    let rests : Bool = length q.waiting == 0 || ltb (env.now - q.last_start_upload) 1000 in
    elim (Bool-cases rests) [
      | inl e ↦ rw e s
      | inr e ↦ elim (Bool-cases (ltb (length q.uploading) (max_slots env))) [
        | inl g ↦
            rw (e, g)
              (add_up_next_client-IsSound env
                (record q { allow_kicking = false; last_start_upload = env.now })
                (ground (arith, g, max_slots_le env)) s)
        | inr g ↦ rw (e, g) s
      ]
    ]

pub process-IsSound : (env : Env) (q : UploadQueue) → IsSound q → IsSound (process env q)
unfolding process
process-IsSound env q s =
    let filled = fill_slot env q in
    let served = serve_all env filled.uploading filled in
    let s' : IsSound served =
      serve_all-IsSound env filled.uploading filled (fill_slot-IsSound env q s) in
    elim (Bool-cases (ltb 120000 (env.now - served.last_sort))) [
      | inl e ↦ rw e (sort_waiting-IsSound env served s'.states s'.slots)
      | inr e ↦ rw e s'
    ]

waiting_again_lem : (env : Env) (c : Client) → (waiting_again env c).state ≡ on_queue
unfolding set_upload_state
waiting_again_lem env c = refl

suspend_client-IsSound :
    (env : Env) (terminate : Bool) (x : ℕ) (q : UploadQueue)
    → IsSound q
    → IsSound (suspend_client env terminate x q)
unfolding suspend_client
suspend_client-IsSound env true x q s = remove_from_upload_queue-IsSound x q s
suspend_client-IsSound env false x q s =
    let q' : UploadQueue = (remove_from_upload_queue x q).0 in
    let a = remove_from_upload_queue-IsAbsent x q s in
    queued-IsSound env x (waiting_again env) q' (waiting_again_lem env (q'.client x)) a.0 a.1
      (remove_from_upload_queue-IsSound x q s)

suspend_all-IsSound :
    (env : Env) (hash : ℕ) (terminate : Bool) (xs : List ℕ) (q : UploadQueue)
    → IsSound q
    → IsSound (suspend_all env hash terminate xs q).0
unfolding suspend_all
suspend_all-IsSound env hash terminate [] q s = s
suspend_all-IsSound env hash terminate (x ∷ xs) q s = elim (Bool-cases (shares hash (q.client x))) [
  | inl e ↦ rw e (
      suspend_all-IsSound env hash terminate xs (suspend_client env terminate x q)
        (suspend_client-IsSound env terminate x q s))
  | inr e ↦ rw e (suspend_all-IsSound env hash terminate xs q s)
]

pub suspend_upload-IsSound :
    (env : Env) (hash : ℕ) (terminate : Bool) (q : UploadQueue)
    → IsSound q
    → IsSound (suspend_upload env hash terminate q).0
unfolding suspend_upload
suspend_upload-IsSound env hash true q s = elim (Bool-cases (hash == 0)) [
  | inl e ↦ rw e s
  | inr e ↦ rw e (suspend_all-IsSound env hash true q.uploading q s)
]
suspend_upload-IsSound env hash false q s = elim (Bool-cases (hash == 0)) [
  | inl e ↦ rw e s
  | inr e ↦ rw e (
      suspend_all-IsSound env hash false q.uploading
        (record q { suspended = λ h. h == hash || q.suspended h }) s)
]

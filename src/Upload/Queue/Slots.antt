-- ===== src/Upload/Queue/Slots.antt =====
-- upload_queue.go: who gets an upload slot, who loses it, and the round over all slots, with
-- `SendBlockData` and the handlers of peer_connection.go that call the queue.
use goed2k.Common.{
  ℕ, ◌+◌, ◌-◌, ◌/◌, ◌%◌, ◌^◌, List, [], ◌∷◌, ◌++◌, length, Bool, true, false, ◌&&◌, ◌||◌, not,
  Option, none, some, ltb, leb, ◌==◌, if◌then◌else◌,
}
use goed2k.Upload.{
  on_queue, uploading, is_uploading_state, accept_upload, out_of_parts, queue_ranking, Client,
  set_upload_state, send, is_upload_connected, upload_start_delay, upload_session,
  reset_upload_session, clear_upload_block_requests,
}
use goed2k.Upload.Send.{Sent, nothing, refused, failed, complete, send_first_block}
use goed2k.Upload.Queue.{
  Env, UploadQueue, update, on_client, contains, max_slots, is_suspended, recompute_ranks,
  sort_waiting, remove_from_waiting_queue, remove_from_upload_queue,
}

abbrev pub mark_add_next : Client → Client
mark_add_next c = record c { add_next = true }

abbrev passed_over : Client → Bool
passed_over c = c.low_id && not (is_upload_connected c)

-- The clients that were passed over are marked. The result is the client that is taken out of the
-- list, if there is one, and the list without it.
unfoldable pub take_next : List ℕ → (ℕ → Client) → (ℕ → Client) × Option ℕ × List ℕ
take_next [] m = (m, none, [])
take_next (x ∷ xs) m =
    let r = take_next xs (update x mark_add_next m) in
    if passed_over (m x) then (r.0, r.1, x ∷ r.2) else (m, some x, xs)

abbrev pub uploader : Env → Client → Client
uploader env c = reset_upload_session (record (set_upload_state uploading c) {
  queue_rank = 0;
  add_next = false;
  start_time = env.now;
})

abbrev pub accepted : Client → Client
accepted c = if c.has_socket then send accept_upload c else c

unfoldable pub start_upload : Env → ℕ → UploadQueue → UploadQueue
start_upload env x q =
    if contains x q.uploading
    then q
    else on_client x (λ c. accepted (uploader env c))
        (record q {
          uploading = q.uploading ++ (x ∷ []);
          last_slot_high_id = not (q.client x).low_id;
        })

unfoldable pub add_up_next_client : Env → Option ℕ → UploadQueue → UploadQueue
add_up_next_client env (some x) q = start_upload env x q
add_up_next_client env none q =
    let r = take_next q.waiting q.client in
    let q' : UploadQueue = record q { client = r.0; waiting = r.2 } in
    elim r.1 [ none ↦ q' | some x ↦ start_upload env x (recompute_ranks q') ]

abbrev pub tell_rank : Client → Client
tell_rank c = send (queue_ranking c.queue_rank) c

abbrev pub not_next : Client → Client
not_next c = record c { add_next = false }

abbrev pub not_waiting : Client → Client
not_waiting c = record c { wait_start = 0 }

-- `AddClientToQueue` for a client on the waiting list.
unfoldable pub ask_again : Env → ℕ → UploadQueue → UploadQueue
ask_again env x q =
    let next : Bool = (q.client x).add_next in
    let slots : ℕ = if next && q.last_slot_high_id then max_slots env + 1 else max_slots env in
    if next && ltb (length q.uploading) slots
    then (let q' : UploadQueue = on_client x not_next q in
        let q'' = add_up_next_client env (some x) (remove_from_waiting_queue x q').0 in
        record q'' { last_slot_high_id = false })
    else on_client x tell_rank q

abbrev pub new_waiting : Env → Client → Client
new_waiting env c = set_upload_state on_queue (record c { wait_start = env.now })

-- `AddClientToQueue` for a client that is in neither list.
unfoldable pub ask_first : Env → ℕ → UploadQueue → UploadQueue
ask_first env x q =
    let q' : UploadQueue = on_client x not_waiting q in
    let started : UploadQueue = record (add_up_next_client env (some x) q') {
      last_start_upload = env.now;
    } in
    if ltb 0 env.upload_queue_size && leb env.upload_queue_size (length q.waiting)
    then q
    else (if length q.waiting == 0
          && leb 1000 (env.now - q.last_start_upload)
          && ltb (length q.uploading) (max_slots env)
        then started
        else on_client x tell_rank (
            sort_waiting env
              (on_client x (new_waiting env) (record q' { waiting = q'.waiting ++ (x ∷ []) }))))

abbrev pub may_wait : UploadQueue → Client → Bool
may_wait q c = elim c.transfer [ none ↦ false | some t ↦ not (is_suspended q t.hash) ]

abbrev pub asked : Env → Client → Client
asked env c = record c { last_request = env.now }

unfoldable pub add_client_to_queue : Env → ℕ → UploadQueue → UploadQueue
add_client_to_queue env x q =
    let q' : UploadQueue = on_client x (asked env) q in
    if (q.client x).disconnecting
    then q
    else (if contains x q.waiting
        then ask_again env x q'
        else (if contains x q.uploading
            then on_client x (send accept_upload) q'
            else (if may_wait q (q.client x) then ask_first env x q' else q')))

abbrev pub is_power_share : Client → Bool
is_power_share c = elim c.transfer [ none ↦ false | some t ↦ t.is_power_share ]

unfoldable pub count_vips : (ℕ → Client) → List ℕ → ℕ
count_vips m [] = 0
count_vips m (x ∷ xs) =
    (if (m x).friend_slot || is_power_share (m x) then 1 else 0) + count_vips m xs

unfoldable pub check_for_time_over : Env → ℕ → UploadQueue → UploadQueue × Bool
check_for_time_over env x q =
    let c = q.client x in
    let vips = count_vips q.client q.uploading in
    if not q.allow_kicking
    then (q, false)
    else (if c.friend_slot
        then (q, false)
        else (if is_power_share c && leb vips (max_slots env / 2)
            then (q, false)
            else (if ltb 3600000 (upload_start_delay env.now c) || ltb 10485760 (upload_session c)
                then (record q { allow_kicking = false }, true)
                else (q, false))))

unfoldable pub send_out_of_part_reqs_and_add_to_waiting_queue : Env → ℕ → UploadQueue → UploadQueue
send_out_of_part_reqs_and_add_to_waiting_queue env x q =
    add_client_to_queue env x
      (on_client x (λ c. clear_upload_block_requests (send out_of_parts c)) q)

-- What follows the attempt to send the first block.
unfoldable pub after_block : Env → ℕ → UploadQueue → Client × Sent → UploadQueue
after_block env x q (c, nothing) = on_client x (λ _. c) q
after_block env x q (c, complete) = on_client x (λ _. c) q
after_block env x q (c, failed) = (remove_from_upload_queue x (on_client x (λ _. c) q)).0
after_block env x q (c, refused) =
    send_out_of_part_reqs_and_add_to_waiting_queue env x (on_client x (λ _. c) q)

unfoldable pub send_block_data : Env → ℕ → UploadQueue → UploadQueue
send_block_data env x q =
    let over = check_for_time_over env x q in
    let kicked =
      send_out_of_part_reqs_and_add_to_waiting_queue env x (remove_from_upload_queue x over.0).0 in
    let sent =
      send_first_block (env.can_upload_range x) (env.read_range x) (q.client x).blocks
        (q.client x) in
    if not (is_uploading_state (q.client x).state)
    then q
    else (if over.1 then kicked else after_block env x q sent)

unfoldable pub serve : Env → ℕ → UploadQueue → UploadQueue
serve env x q =
    if (q.client x).disconnecting || not (q.client x).has_socket
    then (remove_from_upload_queue x q).0
    else send_block_data env x q

unfoldable pub serve_all : Env → List ℕ → UploadQueue → UploadQueue
serve_all env [] q = q
serve_all env (x ∷ xs) q = serve_all env xs (serve env x q)

unfoldable pub fill_slot : Env → UploadQueue → UploadQueue
fill_slot env q =
    if length q.waiting == 0 || ltb (env.now - q.last_start_upload) 1000
    then record q { allow_kicking = false }
    else (if ltb (length q.uploading) (max_slots env)
        then add_up_next_client env none
            (record q { allow_kicking = false; last_start_upload = env.now })
        else record q { allow_kicking = true })

unfoldable pub process : Env → UploadQueue → UploadQueue
process env q =
    let filled = fill_slot env q in
    let served = serve_all env filled.uploading filled in
    if ltb 120000 (env.now - served.last_sort) then sort_waiting env served else served

unfoldable pub resume_upload : ℕ → UploadQueue → UploadQueue
resume_upload hash q =
    if hash == 0 then q else record q { suspended = λ h. not (h == hash) && q.suspended h }

abbrev pub shares : ℕ → Client → Bool
shares hash c = elim c.transfer [ none ↦ false | some t ↦ t.hash == hash ]

abbrev pub waiting_again : Env → Client → Client
waiting_again env c = record (set_upload_state on_queue c) { wait_start = env.now }

-- The slot is taken away, and unless the upload ends the client waits from now on.
unfoldable pub suspend_client : Env → Bool → ℕ → UploadQueue → UploadQueue
suspend_client env terminate x q =
    let q' : UploadQueue = (remove_from_upload_queue x q).0 in
    if terminate
    then q'
    else on_client x tell_rank (
        sort_waiting env
          (record (on_client x (waiting_again env) q') { waiting = q'.waiting ++ (x ∷ []) }))

-- The queue, and the number of those that lost their slot.
unfoldable pub suspend_all : Env → ℕ → Bool → List ℕ → UploadQueue → UploadQueue × ℕ
suspend_all env hash terminate [] q = (q, 0)
suspend_all env hash terminate (x ∷ xs) q =
    let rest = suspend_all env hash terminate xs q in
    let r = suspend_all env hash terminate xs (suspend_client env terminate x q) in
    if shares hash (q.client x) then (r.0, r.1 + 1) else rest

unfoldable pub suspend_upload : Env → ℕ → Bool → UploadQueue → UploadQueue × ℕ
suspend_upload env hash terminate q =
    let marked : UploadQueue =
      if terminate then q else record q { suspended = λ h. h == hash || q.suspended h } in
    let r = suspend_all env hash terminate q.uploading marked in
    if hash == 0 then (q, 0) else (r.0, r.1 % 2 ^ 16)

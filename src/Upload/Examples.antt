-- ===== src/Upload/Examples.antt =====
-- Two clients that ask for a slot, and a block of 30,000 bytes.
use goed2k.Common.{ℕ, ◌-◌, ◌≡◌, refl, List, [], ◌∷◌, ◌++◌, replicate, true, false, some}
use goed2k.Upload.{
  idle, Packet, queue_ranking, sending_part, Client, set_upload_state, is_upload_connected,
  reset_upload_session, upload_score, upload_start_delay, upload_session,
  clear_upload_block_requests,
}
use goed2k.Upload.Send.{send_payload, send_part, send_loop, send_first_block}
use goed2k.Upload.Send.Parts.{Tiles, send_payload-Tiles}
use goed2k.Upload.Queue.{
  Env, UploadQueue, new_upload_queue, update, contains, remove, max_slots, rank_from,
  recompute_ranks, is_before, insert, sort_stable, sort_waiting, remove_from_waiting_queue,
  remove_from_upload_queue,
}
use goed2k.Upload.Queue.Slots.{
  take_next, start_upload, add_up_next_client, ask_again, ask_first, add_client_to_queue,
  check_for_time_over, count_vips, send_block_data, after_block, serve, serve_all, fill_slot,
  process, suspend_client, suspend_all, suspend_upload,
}
use goed2k.Upload.Queue.Counts.{count}
use goed2k.Upload.Queue.Order.{MayPrecede, Pairwise, sort_waiting-Pairwise}
use goed2k.Upload.Queue.Invariant.{IsSound}
use goed2k.Upload.Queue.Invariant.Histories.{
  Event, start_upload_request, tick, suspend, run, step, run-IsSound,
}

abbrev peer : Client
peer = record {
  state = idle;
  queue_rank = 0;
  wait_start = 0;
  start_time = 0;
  session_base = 0;
  last_request = 0;
  blocks = [];
  done = [];
  add_next = false;
  friend_slot = false;
  disconnecting = false;
  has_socket = true;
  low_id = false;
  transfer = some (record { hash = 9; is_power_share = false });
  total_upload = 0;
  endpoint = record { ip = 1; port = 2 };
  packets = [];
}

abbrev at_time : ℕ → Env
at_time t = record {
  now = t;
  max_upload_rate_kb = 0;
  slot_allocation_kb = 3;
  upload_rate = 0;
  upload_queue_size = 10;
  weight = λ c. t - c.wait_start;
  can_upload_range = λ x begin end. true;
  read_range = λ x begin end. some (replicate (end - begin) 5);
}

abbrev start : UploadQueue
start = new_upload_queue (λ x. peer)

abbrev asked_thrice : List Event
asked_thrice =
    start_upload_request (at_time 5000) 1
    ∷ start_upload_request (at_time 5001) 2
    ∷ start_upload_request (at_time 5002) 3
    ∷ []

-- The first has a slot at once, and the next one waits until a second has passed.
asked_lem :
    ((run asked_thrice start).uploading ≡ 1 ∷ [])
    × ((run asked_thrice start).waiting ≡ 2 ∷ 3 ∷ [])
    × (((run asked_thrice start).client 3).packets ≡ queue_ranking 2 ∷ [])
    × ((run (asked_thrice ++ (tick (at_time 6000) ∷ [])) start).uploading ≡ 1 ∷ 2 ∷ [])
unfolding run step new_upload_queue add_client_to_queue ask_first ask_again add_up_next_client
    start_upload contains update max_slots set_upload_state reset_upload_session sort_waiting
    sort_stable insert is_before upload_score recompute_ranks rank_from process fill_slot serve_all
    serve send_block_data check_for_time_over count_vips upload_start_delay upload_session
    after_block send_first_block take_next is_upload_connected
asked_lem = (refl, refl, refl, refl)

-- The file is suspended, and the next tick gives a slot to a client of that file.
suspended_lem :
    ((run (asked_thrice ++ (suspend (at_time 5500) 9 false ∷ [])) start).uploading ≡ [])
    × ((run
          (asked_thrice ++ (suspend (at_time 5500) 9 false ∷ tick (at_time 6000) ∷ []))
          start).uploading
        ≡ 2 ∷ [])
unfolding run step new_upload_queue add_client_to_queue ask_first ask_again add_up_next_client
    start_upload contains remove update max_slots set_upload_state reset_upload_session sort_waiting
    sort_stable insert is_before upload_score recompute_ranks rank_from process fill_slot serve_all
    serve send_block_data check_for_time_over count_vips upload_start_delay upload_session
    after_block send_first_block take_next is_upload_connected suspend_upload suspend_all
    suspend_client remove_from_upload_queue remove_from_waiting_queue clear_upload_block_requests
suspended_lem = (refl, refl)

run-IsSound_example : IsSound (run asked_thrice start)
run-IsSound_example = run-IsSound (λ x. peer) asked_thrice (λ x. refl)

-- Two parts of 15,000 bytes.
parts_lem :
    (send_payload 100 (replicate 30000 5) peer).0.packets
    ≡ sending_part 100 15100 (replicate 15000 5) ∷ sending_part 15100 30100 (replicate 15000 5) ∷ []
unfolding send_payload send_loop send_part
parts_lem = refl

send_payload-Tiles_example :
    (ps : List Packet) × (send_payload 100 (1 ∷ 2 ∷ []) peer
      ≡ (record peer { packets = [] ++ ps }, true))
    × Tiles 40960 100 (1 ∷ 2 ∷ []) ps
send_payload-Tiles_example = send_payload-Tiles 100 (1 ∷ 2 ∷ []) peer

sort_waiting-Pairwise_example :
    Pairwise
      (λ a b.
        MayPrecede
          (at_time 6000).weight
          ((run asked_thrice start).client a)
          ((run asked_thrice start).client b))
      (sort_waiting (at_time 6000) (run asked_thrice start)).waiting
    × ((x : ℕ)
        → count x (sort_waiting (at_time 6000) (run asked_thrice start)).waiting
          ≡ count x (run asked_thrice start).waiting)
sort_waiting-Pairwise_example = sort_waiting-Pairwise (at_time 6000) (run asked_thrice start)

-- ===== src/Upload/Queue.antt =====
-- upload_queue.go: the clients that wait for an upload slot and those that have one.
--
-- A client is a number, which stands for its pointer, and `client` is the store that the pointers
-- lead to; no list of the code holds a nil. What the queue reads from elsewhere is in `Env`: the
-- clock, which stands still during a call, the settings, and the files.
pub mod Invariant
pub mod Slots
pub mod Counts
pub mod Order
use goed2k.Common.{
  ℕ, zero, suc, ◌+◌, ◌-◌, ◌*◌, ◌/◌, ◌%◌, ◌^◌, List, [], ◌∷◌, ◌++◌, length, Bool, true, false, ◌&&◌,
  ◌||◌, not, Option, none, some, ltb, leb, ◌==◌, if◌then◌else◌,
}
use goed2k.Peers.{compare_endpoints, is_negative}
use goed2k.Upload.{
  UploadState, idle, on_queue, uploading, connecting, is_uploading_state, Packet, accept_upload,
  out_of_parts, queue_ranking, Share, Client, set_upload_state, send, is_upload_connected,
  upload_start_delay, upload_session, reset_upload_session, clear_upload_block_requests,
  upload_score,
}
use goed2k.Upload.Send.{Sent, nothing, refused, failed, complete, send_first_block}

pub record Env : Type 0 where
  pub now : ℕ
  pub max_upload_rate_kb : ℕ
  pub slot_allocation_kb : ℕ
  pub upload_rate : ℕ
  pub upload_queue_size : ℕ
  pub weight : Client → ℕ
  pub can_upload_range : ℕ → ℕ → ℕ → Bool
  pub read_range : ℕ → ℕ → ℕ → Option (List ℕ)

pub record UploadQueue : Type 0 where
  pub client : ℕ → Client
  pub waiting : List ℕ
  pub uploading : List ℕ
  pub last_start_upload : ℕ
  pub last_sort : ℕ
  pub allow_kicking : Bool
  pub last_slot_high_id : Bool
  pub suspended : ℕ → Bool

unfoldable pub new_upload_queue : (ℕ → Client) → UploadQueue
new_upload_queue m = record {
  client = m;
  waiting = [];
  uploading = [];
  last_start_upload = 0;
  last_sort = 0;
  allow_kicking = false;
  last_slot_high_id = true;
  suspended = λ h. false;
}

unfoldable pub update : ℕ → (Client → Client) → (ℕ → Client) → ℕ → Client
update x f m y = if y == x then f (m y) else m y

abbrev pub on_client : ℕ → (Client → Client) → UploadQueue → UploadQueue
on_client x f q = record q { client = update x f q.client }

unfoldable pub contains : ℕ → List ℕ → Bool
contains x [] = false
contains x (y ∷ ys) = y == x || contains x ys

-- The first occurrence.
unfoldable pub remove : ℕ → List ℕ → List ℕ
remove x [] = []
remove x (y ∷ ys) = if y == x then ys else y ∷ remove x ys

abbrev pub is_on_upload_queue : UploadQueue → ℕ → Bool
is_on_upload_queue q x = contains x q.waiting

abbrev pub is_uploading : UploadQueue → ℕ → Bool
is_uploading q x = contains x q.uploading

-- Between the two limits.
abbrev limited : ℕ → ℕ
limited n = if ltb n 2 then 2 else (if ltb 250 n then 250 else n)

-- A setting that is not positive is 0. The quotient of two floats is rounded to the nearest number.
unfoldable pub max_slots : Env → ℕ
max_slots env =
    let allocation : ℕ = if env.slot_allocation_kb == 0 then 3 else env.slot_allocation_kb in
    if env.max_upload_rate_kb == 0
    then limited (env.upload_rate / 1024 / allocation + 2)
    else limited ((2 * env.max_upload_rate_kb + allocation) / (2 * allocation))

-- Hash 0 is the invalid one.
abbrev pub is_suspended : UploadQueue → ℕ → Bool
is_suspended q hash = not (hash == 0) && q.suspended hash

abbrev set_rank : ℕ → Client → Client
set_rank rank c = record c { queue_rank = rank }

unfoldable pub rank_from : ℕ → List ℕ → (ℕ → Client) → ℕ → Client
rank_from i [] m = m
rank_from i (x ∷ xs) m = rank_from (suc i) xs (update x (set_rank (suc i % 2 ^ 16)) m)

unfoldable pub recompute_ranks : UploadQueue → UploadQueue
recompute_ranks q = record q { client = rank_from 0 q.waiting q.client }

-- The sign of the comparison, true for a negative one.
unfoldable pub is_before : (Client → ℕ) → Client → Client → Bool
is_before weight a b =
    let score_a = upload_score weight a in
    let score_b = upload_score weight b in
    if not (score_a == score_b)
    then ltb score_b score_a
    else (if a.wait_start == b.wait_start
        then is_negative (compare_endpoints a.endpoint b.endpoint)
        else ltb a.wait_start b.wait_start)

unfoldable pub insert : (ℕ → ℕ → Bool) → ℕ → List ℕ → List ℕ
insert lt x [] = x ∷ []
insert lt x (y ∷ ys) = let rest = insert lt x ys in if lt y x then y ∷ rest else x ∷ (y ∷ ys)

-- The stable sort of `slices`, of which there is one result.
unfoldable pub sort_stable : (ℕ → ℕ → Bool) → List ℕ → List ℕ
sort_stable lt [] = []
sort_stable lt (x ∷ xs) = insert lt x (sort_stable lt xs)

unfoldable pub sort_waiting : Env → UploadQueue → UploadQueue
sort_waiting env q =
    let lt = λ (a b : ℕ). is_before env.weight (q.client a) (q.client b) in
    recompute_ranks (record q { waiting = sort_stable lt q.waiting; last_sort = env.now })

abbrev pub left_waiting : Client → Client
left_waiting c = record (set_upload_state idle c) { queue_rank = 0; wait_start = 0 }

unfoldable pub remove_from_waiting_queue : ℕ → UploadQueue → UploadQueue × Bool
remove_from_waiting_queue x q =
    if contains x q.waiting
    then (
      recompute_ranks (on_client x left_waiting (record q { waiting = remove x q.waiting })),
      true,
    )
    else (q, false)

abbrev pub removed_client : Client → Client
removed_client c = clear_upload_block_requests (set_upload_state idle c)

unfoldable pub remove_from_upload_queue : ℕ → UploadQueue → UploadQueue × Bool
remove_from_upload_queue x q =
    let q' : UploadQueue = record q { uploading = remove x q.uploading } in
    let r = remove_from_waiting_queue x q' in
    let removed : Bool = contains x q.uploading || r.1 in
    (if removed then on_client x removed_client r.0 else r.0, removed)

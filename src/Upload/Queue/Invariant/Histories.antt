-- ===== src/Upload/Queue/Invariant/Histories.antt =====
-- The queue over any history of its calls, and of what happens to the connections between them.
use goed2k.Common.{ℕ, ◌≡◌, refl, List, [], ◌∷◌, Bool, ◌==◌, arith, Bool-cases, inl, inr}
use goed2k.Upload.{idle, Client}
use goed2k.Upload.Queue.{Env, UploadQueue, on_client, new_upload_queue, remove_from_upload_queue}
use goed2k.Upload.Queue.Slots.{add_client_to_queue, process, resume_upload, suspend_upload}
use goed2k.Upload.Queue.Counts.{count}
use goed2k.Upload.Queue.Invariant.{IsSound, Keeps, Keeps-IsSound}
use goed2k.Upload.Queue.Invariant.Leaving.{remove_from_upload_queue-IsSound}
use goed2k.Upload.Queue.Invariant.Requests.{add_client_to_queue-IsSound}
use goed2k.Upload.Queue.Invariant.Rounds.{process-IsSound, suspend_upload-IsSound}

-- A request for a slot, the tick of the session, the end of an upload by the peer or with the
-- connection, the two commands on a file, and what other code does to a connection: anything that
-- leaves alone the two fields which only the queue sets.
pub data Event : Type 0 where
  start_upload_request : Env → ℕ → Event
  tick : Env → Event
  cancel_transfer : ℕ → Event
  suspend : Env → ℕ → Bool → Event
  resume : ℕ → Event
  connection_change : ℕ → (f : Client → Client) → Keeps f → Event

unfoldable pub step : Event → UploadQueue → UploadQueue
step (start_upload_request env x) q = add_client_to_queue env x q
step (tick env) q = process env q
step (cancel_transfer x) q = (remove_from_upload_queue x q).0
step (suspend env hash terminate) q = (suspend_upload env hash terminate q).0
step (resume hash) q = resume_upload hash q
step (connection_change x f k) q = on_client x f q

unfoldable pub run : List Event → UploadQueue → UploadQueue
run [] q = q
run (e ∷ es) q = run es (step e q)

resume_upload-IsSound : (hash : ℕ) (q : UploadQueue) → IsSound q → IsSound (resume_upload hash q)
unfolding resume_upload
resume_upload-IsSound hash q s = elim (Bool-cases (hash == 0)) [ inl e ↦ rw e s | inr e ↦ rw e s ]

step-IsSound : (e : Event) (q : UploadQueue) → IsSound q → IsSound (step e q)
unfolding step
step-IsSound (start_upload_request env x) q s = add_client_to_queue-IsSound env x q s
step-IsSound (tick env) q s = process-IsSound env q s
step-IsSound (cancel_transfer x) q s = remove_from_upload_queue-IsSound x q s
step-IsSound (suspend env hash terminate) q s = suspend_upload-IsSound env hash terminate q s
step-IsSound (resume hash) q s = resume_upload-IsSound hash q s
step-IsSound (connection_change x f k) q s = Keeps-IsSound x f q k s

run_from-IsSound : (es : List Event) (q : UploadQueue) → IsSound q → IsSound (run es q)
unfolding run
run_from-IsSound [] q s = s
run_from-IsSound (e ∷ es) q s = run_from-IsSound es (step e q) (step-IsSound e q s)

new_upload_queue-IsSound :
    (m : ℕ → Client) → ((x : ℕ) → (m x).state ≡ idle) → IsSound (new_upload_queue m)
unfolding new_upload_queue count
new_upload_queue-IsSound m h = record {
  states = λ x. rw (h x) (refl, refl);
  ranks = λ i x e. cc;
  slots = omega arith;
}

-- From an empty upload queue whose connections have no upload state yet, any sequence of
-- requests, ticks, cancellations, suspensions, resumptions and other changes of connections
-- leads to a queue in which the uploading list holds each client in the uploading state once and
-- nobody else, the waiting list each waiting client once and nobody else, each waiting client
-- has its place as rank, and at most 251 clients upload.
pub run-IsSound :
    (m : ℕ → Client) (es : List Event)
    → ((x : ℕ) → (m x).state ≡ idle)
    → IsSound (run es (new_upload_queue m))
run-IsSound m es h = run_from-IsSound es (new_upload_queue m) (new_upload_queue-IsSound m h)

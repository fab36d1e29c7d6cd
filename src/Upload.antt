-- ===== src/Upload.antt =====
-- What a connection keeps for its uploads: the fields of peer_connection.go that upload_queue.go
-- reads and sets, and the blocks that a peer asked for. The packets of a connection are the list of
-- those that it queued.
pub mod Send
pub mod Queue
mod Examples
use goed2k.Common.{
  ℕ, zero, suc, ◌+◌, ◌-◌, ◌*◌, ◌/◌, ◌%◌, ◌^◌, List, [], ◌∷◌, ◌++◌, Bool, true, false, ◌&&◌, ◌||◌,
  not, Option, none, some, ltb, leb, ◌==◌, if◌then◌else◌,
}
use goed2k.Wire.Basic.{Endpoint}

pub data UploadState : Type 0 where
  idle on_queue uploading connecting : UploadState

abbrev pub is_uploading_state : UploadState → Bool
is_uploading_state uploading = true
is_uploading_state _ = false

pub record RequestedUploadBlock : Type 0 where
  pub begin : ℕ
  pub end : ℕ
  pub transferred : ℕ

pub data Packet : Type 0 where
  accept_upload out_of_parts : Packet
  queue_ranking : ℕ → Packet
  sending_part : ℕ → ℕ → List ℕ → Packet

-- The hash of a transfer is a number, 0 for the invalid one.
pub record Share : Type 0 where
  pub hash : ℕ
  pub is_power_share : Bool

pub record Client : Type 0 where
  pub state : UploadState
  pub queue_rank : ℕ
  pub wait_start : ℕ
  pub start_time : ℕ
  pub session_base : ℕ
  pub last_request : ℕ
  pub blocks : List RequestedUploadBlock
  pub done : List RequestedUploadBlock
  pub add_next : Bool
  pub friend_slot : Bool
  pub disconnecting : Bool
  pub has_socket : Bool
  pub low_id : Bool
  pub transfer : Option Share
  pub total_upload : ℕ
  pub endpoint : Endpoint
  pub packets : List Packet

unfoldable pub set_upload_state : UploadState → Client → Client
set_upload_state s c = record c {
  state = s;
  start_time = if is_uploading_state s then c.start_time else 0;
}

abbrev pub send : Packet → Client → Client
send p c = record c { packets = c.packets ++ (p ∷ []) }

unfoldable pub is_upload_connected : Client → Bool
is_upload_connected c = c.has_socket && not c.disconnecting

unfoldable pub upload_start_delay : ℕ → Client → ℕ
upload_start_delay now c = if c.start_time == 0 then 0 else now - c.start_time

unfoldable pub upload_session : Client → ℕ
upload_session c = if ltb c.total_upload c.session_base then 0 else c.total_upload - c.session_base

unfoldable pub reset_upload_session : Client → Client
reset_upload_session c = record c { session_base = c.total_upload }

unfoldable pub clear_upload_block_requests : Client → Client
clear_upload_block_requests c = record c { blocks = []; done = [] }

-- `weight` is the waiting time by the credit and the priority, cut off to a uint32.
unfoldable pub upload_score : (Client → ℕ) → Client → ℕ
upload_score weight c =
    if is_uploading_state c.state
    then 0
    else (if c.friend_slot && not c.low_id
        then 0x0fffffff
        else (if c.wait_start == 0 then 0 else weight c % 2 ^ 32))

-- Whether a range is among the blocks.
unfoldable pub has_range : ℕ → ℕ → List RequestedUploadBlock → Bool
has_range begin end [] = false
has_range begin end (b ∷ bs) = (b.begin == begin && b.end == end) || has_range begin end bs

-- The range of the request is given.
unfoldable pub add_upload_request : ℕ → ℕ → Client → Client
unfolding has_range
add_upload_request begin end c =
    if not (is_uploading_state c.state)
    then c
    else (if has_range begin end c.done
        then c
        else (if has_range begin end c.blocks then c else record c {
          blocks = c.blocks ++ (record { begin = begin; end = end; transferred = 0 } ∷ []);
        }))

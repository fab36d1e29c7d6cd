-- ===== src/Picker/Block.antt =====
-- One block of a piece that is being downloaded: the DownloadingBlock of downloading_piece.go.
-- A `*Peer` is a number that stands for the pointer. `downloadersCount` is an int16, kept as its bit
-- pattern, so that its sign is the top bit.
use goed2k.Common.{
  ℕ, ◌+◌, ◌-◌, ◌%◌, ◌<◌, ◌≡◌, refl, ◌⊎◌, inl, inr, Bool, true, false, ◌&&◌, ◌||◌, Option, none,
  some, ltb, leb, ◌==◌, if◌then◌else◌, arith,
}

pub data BlockState : Type 0 where
  state_none state_requested state_writing state_finished : BlockState

abbrev pub Peer : Type 0
Peer = ℕ

-- PeerSpeed of peer_connection.go: slow, medium and fast, in this order.
abbrev pub PeerSpeed : Type 0
PeerSpeed = ℕ

abbrev pub peer_speed_slow : PeerSpeed
peer_speed_slow = 0

pub record DownloadingBlock : Type 0 where
  pub state : BlockState
  pub downloaders_count : ℕ
  pub last_downloader : Option Peer
  pub speed : PeerSpeed

-- The zero value.
abbrev pub new_block : DownloadingBlock
new_block = record { state = state_none; downloaders_count = 0; last_downloader = none; speed = 0 }

abbrev pub state_eq : BlockState → BlockState → Bool
state_eq state_none state_none = true
state_eq state_requested state_requested = true
state_eq state_writing state_writing = true
state_eq state_finished state_finished = true
state_eq _ _ = false

-- Equality of two pointers, either of which may be nil.
abbrev pub peer_eq : Option Peer → Option Peer → Bool
peer_eq none none = true
peer_eq (some p) (some q) = p == q
peer_eq none (some q) = false
peer_eq (some p) none = false

abbrev pub is_requested : DownloadingBlock → Bool
is_requested b = state_eq b.state state_requested

abbrev pub is_finished : DownloadingBlock → Bool
is_finished b = state_eq b.state state_finished

abbrev pub is_writing : DownloadingBlock → Bool
is_writing b = state_eq b.state state_writing

abbrev pub is_free : DownloadingBlock → Bool
is_free b = state_eq b.state state_none

-- `n > 0` and `n < 2` for an int16 given by its bit pattern.
abbrev pub is_positive_int16 : ℕ → Bool
is_positive_int16 n = ltb 0 n && ltb n 32768

abbrev pub is_below_two_int16 : ℕ → Bool
is_below_two_int16 n = ltb n 2 || leb 32768 n

unfoldable pub request : DownloadingBlock → Option Peer → PeerSpeed → DownloadingBlock
request b p speed = record {
  state = state_requested;
  downloaders_count = (b.downloaders_count + 1) % 65536;
  last_downloader = p;
  speed = speed;
}

unfoldable pub write : DownloadingBlock → DownloadingBlock
write b = record b { state = state_writing; downloaders_count = 0; last_downloader = none }

unfoldable pub finish : DownloadingBlock → DownloadingBlock
finish b = record b { state = state_finished }

-- The three statements of `Abort`, in order.
unfoldable pub abort : DownloadingBlock → Option Peer → DownloadingBlock
abort b p =
    let count =
      if is_positive_int16 b.downloaders_count
      then b.downloaders_count - 1
      else b.downloaders_count in
    record b {
      downloaders_count = count;
      last_downloader = if peer_eq b.last_downloader p then none else b.last_downloader;
      state = if count == 0 then state_none else b.state;
    }

peer_eq_refl : (p : Option Peer) → peer_eq p p ≡ true
peer_eq_refl none = refl
peer_eq_refl (some p) = ground arith

-- A request of a block that is free with no downloader, or requested with a downloader (and
-- fewer than 32767), followed by an abort of the same peer, leaves its state and its number of
-- downloaders as they were, and no last downloader.
pub abort-request :
    (b : DownloadingBlock) (p : Option Peer) (speed : PeerSpeed)
    → b.downloaders_count < 32767
    → ((b.state ≡ state_none) × (b.downloaders_count ≡ 0))
      ⊎ ((b.state ≡ state_requested) × (0 < b.downloaders_count))
    → let c = abort (request b p speed) p in
      (c.state ≡ b.state) × (c.downloaders_count ≡ b.downloaders_count) × (c.last_downloader ≡ none)
unfolding request abort
abort-request b p speed h (inl k) = ground (arith, peer_eq_refl p)
abort-request b p speed h (inr k) = ground (arith, peer_eq_refl p)

-- An abort, by any peer, of a block that was set to writing, or set to writing and then to
-- finished, makes it free again.
pub abort-write :
    (b : DownloadingBlock) (p : Option Peer)
    → (is_free (abort (write b) p) ≡ true) × (is_free (abort (finish (write b)) p) ≡ true)
unfolding write finish abort
abort-write b p = ground arith

-- ===== src/Wire/Stream.antt =====
-- Frames cut out of the chunks that a socket delivers: connection.go, `ReadFramesWithCombiner` and
-- the queue of incoming chunks it drains.
pub mod Frames
pub mod Total
use goed2k.Common.{
  ℕ, zero, suc, ◌+◌, ◌-◌, ◌^◌, List, [], ◌∷◌, ◌++◌, length, take, drop, Bool, ◌||◌, ltb, leb,
  if◌then◌else◌, Option, none, some,
}
use goed2k.Wire.{Error, unexpected_eof, Result, ok, err}
use goed2k.Wire.Basic.{read_bytes}
use goed2k.Wire.Header.{PacketHeader, get_header, packet_header_size, size_packet}

-- `incoming` of a connection.
abbrev pub Chunks : Type 0
Chunks = List (List ℕ)

unfoldable pub prepend_incoming : List ℕ → Chunks → Chunks
prepend_incoming [] incoming = incoming
prepend_incoming (x ∷ xs) incoming = (x ∷ xs) ∷ incoming

unfoldable pub append_incoming : Chunks → List ℕ → Chunks
append_incoming incoming [] = incoming
append_incoming incoming (x ∷ xs) = incoming ++ ((x ∷ xs) ∷ [])

-- The bytes of all chunks; the queue is empty afterwards.
unfoldable pub drain_incoming : Chunks → List ℕ
drain_incoming [] = []
drain_incoming (c ∷ cs) = c ++ drain_incoming cs

abbrev pub Frame : Type 0
Frame = PacketHeader × List ℕ

-- One round of the loop: it is over with an error or with bytes to put back, it read a frame and
-- goes on, or it read a frame whose payload follows, which is put back.
pub data Next : Type 0 where
  over : Option Error → List ℕ → Next
  one : Frame → List ℕ → Next
  last : Frame → List ℕ → Next

abbrev read_service : PacketHeader → ℕ → ℕ → Result (List ℕ × List ℕ) → Next
read_service header body_size service_size (err e) = over (some e) []
read_service header body_size service_size (ok (body, rest)) =
    if ltb service_size body_size then last (header, body) rest else one (header, body) rest

abbrev read_sized : List ℕ → PacketHeader → ℕ → ℕ → List ℕ → Next
read_sized raw header body_size service_size rest =
    if leb (2 ^ 31) body_size || ltb body_size service_size
    then over (some unexpected_eof) []
    else (if ltb (length rest) service_size
        then over none raw
        else read_service header body_size service_size (read_bytes service_size rest))

abbrev read_after : (PacketHeader → ℕ) → List ℕ → Result (PacketHeader × List ℕ) → Next
read_after service raw (err e) = over (some e) []
read_after service raw (ok (header, rest)) =
    read_sized raw header (size_packet header) (service header) rest

-- `service` is `ServiceSize` of the combiner, or the size of the body if there is none. Fewer bytes
-- than a header end the loop.
unfoldable pub next_frame : (PacketHeader → ℕ) → List ℕ → Next
unfolding size_packet
next_frame service raw =
    if ltb (length raw) packet_header_size
    then over none []
    else read_after service raw (get_header raw)

-- The frames, the error, and what is put back in front of the queue.
pub record Outcome : Type 0 where
  pub frames : List Frame
  pub error : Option Error
  pub put_back : List ℕ

abbrev pub prepend_frame : Frame → Option Outcome → Option Outcome
prepend_frame f none = none
prepend_frame f (some o) = some (record o { frames = f ∷ o.frames })

-- With fuel; `none` means that it ran out.
unfoldable pub read_loop : ℕ → (PacketHeader → ℕ) → List ℕ → Option Outcome
unfolding next_frame
read_loop zero service raw = none
read_loop (suc fuel) service raw = elim (next_frame service raw) [
  | over e left ↦ some (record { frames = []; error = e; put_back = left })
  | one f rest ↦ prepend_frame f (read_loop fuel service rest)
  | last f left ↦ some (record { frames = f ∷ []; error = none; put_back = left })
]

-- A round takes a header at least, so one round more than there are bytes is enough.
unfoldable pub read_frames : (PacketHeader → ℕ) → Chunks → Option (Outcome × Chunks)
unfolding read_loop drain_incoming prepend_incoming
read_frames service incoming =
    let raw = drain_incoming incoming in
    elim (read_loop (length raw + 1) service raw) [
      | none ↦ none
      | some o ↦ some (o, prepend_incoming o.put_back [])
    ]

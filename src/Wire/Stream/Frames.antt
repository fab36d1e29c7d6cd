-- ===== src/Wire/Stream/Frames.antt =====
-- Which frames a stream gives, and what is left of it.
use goed2k.Common.{
  ℕ, zero, suc, ◌+◌, ◌^◌, ◌<◌, ◌≤◌, ◌≡◌, ap, ◌∙◌, List, [], ◌∷◌, ◌++◌, append_assoc, length,
  length-append, All, none, some, arith,
}
use goed2k.Wire.RoundTrip.{read_bytes-write}
use goed2k.Wire.Header.{
  PacketHeader, put_header, packet_header_size, size_packet, header-IsFaithful,
}
use goed2k.Wire.Stream.{
  Chunks, drain_incoming, prepend_incoming, Frame, over, one, next_frame, Outcome, read_loop,
  read_frames,
}

-- A frame whose header tells the size of its body.
pub record IsFrame (f : Frame) : Type 0 where
  pub sized : f.0.size ≡ length f.1 + 1
  pub fits : length f.1 < 2 ^ 31

unfoldable pub stream : List Frame → List ℕ
stream [] = []
stream (f ∷ fs) = put_header f.0 ++ (f.1 ++ stream fs)

next-frame :
    (f : Frame) (rest : List ℕ)
    → IsFrame f
    → next_frame size_packet (put_header f.0 ++ (f.1 ++ rest)) ≡ one f rest
unfolding next_frame size_packet
next-frame f rest v = ground (
  arith,
  v.sized,
  v.fits,
  header-IsFaithful.round_trip f.0 (f.1 ++ rest) (omega (arith, v.sized, v.fits)),
  header-IsFaithful.sized f.0 (omega (arith, v.sized, v.fits)),
  length-append (put_header f.0) (f.1 ++ rest),
  length-append f.1 rest,
  read_bytes-write f.1 rest,
)

abbrev pub outcome : List Frame → List ℕ → Outcome
outcome fs left = record { frames = fs; error = none; put_back = left }

read_loop-stream :
    (fs : List Frame) (tail left : List ℕ) (fuel : ℕ)
    → All IsFrame fs
    → next_frame size_packet tail ≡ over none left
    → length (stream fs ++ tail) < fuel
    → read_loop fuel size_packet (stream fs ++ tail) ≡ some (outcome fs left)
unfolding read_loop stream
read_loop-stream fs tail left zero h t k = elim k [ ]
read_loop-stream [] tail left (suc fuel) h t k = rw (read_loop, t)
read_loop-stream (f ∷ fs) tail left (suc fuel) h t k =
    let assoc : (put_header f.0 ++ (f.1 ++ stream fs)) ++ tail
        ≡ put_header f.0 ++ (f.1 ++ (stream fs ++ tail)) =
      append_assoc (put_header f.0) (f.1 ++ stream fs) tail
      ∙ ap (◌++◌ (put_header f.0)) (append_assoc f.1 (stream fs) tail) in
    let shorter : length (stream fs ++ tail) < fuel = omega (
      arith,
      ap length assoc,
      length-append (put_header f.0) (f.1 ++ (stream fs ++ tail)),
      length-append f.1 (stream fs ++ tail),
      header-IsFaithful.sized f.0 (omega (arith, h.0.sized, h.0.fits)),
    ) in
    rw (
      assoc,
      read_loop,
      next-frame f (stream fs ++ tail) h.0,
      read_loop-stream fs tail left fuel h.1 t shorter,
    )

waits :
    (header : PacketHeader) (part : List ℕ)
    → 1 ≤ header.size
    → header.size ≤ 2 ^ 31
    → length part + 1 < header.size
    → next_frame size_packet (put_header header ++ part) ≡ over none (put_header header ++ part)
unfolding next_frame size_packet
waits header part positive small short = ground (
  arith,
  header-IsFaithful.round_trip header part (omega arith),
  header-IsFaithful.sized header (omega arith),
  length-append (put_header header) part,
)

-- With no combiner, for chunks of any lengths whose bytes are whole frames followed by a whole
-- header (of a size from 1 to 2^31) and less than its body, ReadFrames gives exactly the headers
-- and bodies of the whole frames and no error, and puts the bytes of the unfinished frame back
-- as the only chunk.
pub read_frames-whole :
    (fs : List Frame) (header : PacketHeader) (part : List ℕ) (incoming : Chunks)
    → All IsFrame fs
    → 1 ≤ header.size
    → header.size ≤ 2 ^ 31
    → length part + 1 < header.size
    → drain_incoming incoming ≡ stream fs ++ (put_header header ++ part)
    → read_frames size_packet incoming
      ≡ some
          (outcome fs (put_header header ++ part), prepend_incoming (put_header header ++ part) [])
unfolding read_frames
read_frames-whole fs header part incoming h positive small short e =
    let t : next_frame size_packet (put_header header ++ part)
        ≡ over none (put_header header ++ part) =
      waits header part positive small short in
    rw (
      read_frames,
      e,
      read_loop-stream fs (put_header header ++ part) (put_header header ++ part)
          (length (stream fs ++ (put_header header ++ part)) + 1) h t (omega arith),
    )

cut :
    (part : List ℕ) → length part < packet_header_size → next_frame size_packet part ≡ over none []
unfolding next_frame
cut part short = ground arith

-- With no combiner, for chunks whose bytes are whole frames followed by less than a header,
-- ReadFrames gives the whole frames and no error, and leaves no chunk: the last bytes are
-- dropped.
pub read_frames-lost :
    (fs : List Frame) (part : List ℕ) (incoming : Chunks)
    → All IsFrame fs
    → length part < packet_header_size
    → drain_incoming incoming ≡ stream fs ++ part
    → read_frames size_packet incoming ≡ some (outcome fs [], [])
unfolding read_frames prepend_incoming
read_frames-lost fs part incoming h short e = rw (
  read_frames,
  e,
  read_loop-stream fs part [] (length (stream fs ++ part) + 1) h (cut part short) (omega arith),
)

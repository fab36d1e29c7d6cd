-- ===== src/Wire/StreamExamples.antt =====
-- The theorems about a stream of frames at concrete inputs.
use goed2k.Common.{◌≡◌, refl, [], ◌∷◌, ◌++◌, some, arith}
use goed2k.Wire.Basic.{write_le}
use goed2k.Wire.Header.{PacketHeader, put_header, size_packet}
use goed2k.Wire.Stream.{Chunks, Frame, Outcome, drain_incoming, prepend_incoming, read_frames}
use goed2k.Wire.Stream.Frames.{IsFrame, stream, outcome, read_frames-whole, read_frames-lost}
use goed2k.Wire.Stream.Total.{read_frames_total}

abbrev a_header : PacketHeader
a_header = record { protocol = 0xE3; size = 3; packet = 0x4F }

abbrev a_frame : Frame
a_frame = (a_header, 7 ∷ 8 ∷ [])

a_frame-IsFrame : IsFrame a_frame
a_frame-IsFrame = record { sized = refl; fits = omega arith }

-- A frame, and the first byte of the next one, in two chunks.
abbrev cut_chunks : Chunks
cut_chunks = (0xE3 ∷ 3 ∷ 0 ∷ []) ∷ (0 ∷ 0 ∷ 0x4F ∷ 7 ∷ 8 ∷ 0xE3 ∷ []) ∷ []

cut_bytes : drain_incoming cut_chunks ≡ stream (a_frame ∷ []) ++ (0xE3 ∷ [])
unfolding drain_incoming stream put_header write_le
cut_bytes = refl

read_frames-lost_example : read_frames size_packet cut_chunks ≡ some (outcome (a_frame ∷ []) [], [])
read_frames-lost_example =
    read_frames-lost (a_frame ∷ []) (0xE3 ∷ []) cut_chunks (a_frame-IsFrame, tt) (omega arith)
      cut_bytes

-- A frame, and the next one without its last byte.
abbrev late_chunks : Chunks
late_chunks =
    (0xE3 ∷ 3 ∷ 0 ∷ []) ∷ (0 ∷ 0 ∷ 0x4F ∷ 7 ∷ 8 ∷ 0xE3 ∷ 3 ∷ 0 ∷ 0 ∷ 0 ∷ 0x4F ∷ 7 ∷ []) ∷ []

late_bytes : drain_incoming late_chunks ≡ stream (a_frame ∷ []) ++ (put_header a_header ++ (7 ∷ []))
unfolding drain_incoming stream put_header write_le
late_bytes = refl

read_frames-whole_example :
    read_frames size_packet late_chunks
    ≡ some (
      outcome (a_frame ∷ []) (put_header a_header ++ (7 ∷ [])),
      prepend_incoming (put_header a_header ++ (7 ∷ [])) [],
    )
read_frames-whole_example =
    read_frames-whole (a_frame ∷ []) a_header (7 ∷ []) late_chunks (a_frame-IsFrame, tt)
      (omega arith) (omega arith) (omega arith) late_bytes

read_frames_total_example :
    (o : Outcome) × (read_frames size_packet cut_chunks ≡ some (o, prepend_incoming o.put_back []))
read_frames_total_example = read_frames_total size_packet cut_chunks

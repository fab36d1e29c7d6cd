-- ===== src/Wire/Stream/Total.antt =====
-- The loop over a stream ends on every input.
use goed2k.Common.{
  ℕ, zero, suc, ◌+◌, ◌*◌, ◌<◌, ◌≤◌, ◌≡◌, refl, List, [], ◌∷◌, length, none, some, arith,
  length-drop,
}
use goed2k.Wire.{ok}
use goed2k.Wire.Basic.{read_byte, read_le, read_le_rest, read_bytes}
use goed2k.Wire.Header.{PacketHeader, get_header}
use goed2k.Wire.Stream.{
  Chunks, drain_incoming, prepend_incoming, Frame, Next, over, one, last, next_frame, Outcome,
  read_loop, read_frames,
}

read_bytes-le :
    (n : ℕ) (src xs rest : List ℕ) → read_bytes n src ≡ ok (xs, rest) → length rest ≤ length src
unfolding read_bytes
read_bytes-le zero src xs rest e = ground arith
read_bytes-le (suc n) [] xs rest e = ground arith
read_bytes-le (suc n) (y ∷ ys) xs rest e = ground (arith, length-drop n ys)

next_frame-shorter :
    (service : PacketHeader → ℕ) (raw : List ℕ) (f : Frame) (rest : List ℕ)
    → next_frame service raw ≡ one f rest
    → length rest < length raw
unfolding next_frame get_header read_byte read_le read_le_rest
next_frame-shorter service [] f rest e = ground arith
next_frame-shorter service (a ∷ []) f rest e = ground arith
next_frame-shorter service (a ∷ b ∷ []) f rest e = ground arith
next_frame-shorter service (a ∷ b ∷ c ∷ []) f rest e = ground arith
next_frame-shorter service (a ∷ b ∷ c ∷ d ∷ []) f rest e = ground arith
next_frame-shorter service (a ∷ b ∷ c ∷ d ∷ g ∷ []) f rest e = ground arith
next_frame-shorter service (a ∷ b ∷ c ∷ d ∷ g ∷ h ∷ xs) f rest e = ground (
  arith,
  read_bytes-le
      (service (record {
        protocol = a;
        size = b + 256 * (c + 256 * (d + 256 * (g + 256 * 0)));
        packet = h;
      }))
      xs f.1 rest,
)

-- The loop has an outcome with this fuel.
abbrev Ends : ℕ → (PacketHeader → ℕ) → List ℕ → Type 0
Ends fuel service raw = (o : Outcome) × (read_loop fuel service raw ≡ some o)

read_loop_round :
    (fuel : ℕ) (service : PacketHeader → ℕ) (raw : List ℕ) (n : Next)
    → next_frame service raw ≡ n
    → length raw ≤ fuel
    → ((rest : List ℕ) → length rest < fuel → Ends fuel service rest)
    → Ends (suc fuel) service raw
unfolding read_loop
read_loop_round fuel service raw (over e left) q h again =
    (record { frames = []; error = e; put_back = left }, rw (read_loop, q))
read_loop_round fuel service raw (last f left) q h again =
    (record { frames = f ∷ []; error = none; put_back = left }, rw (read_loop, q))
read_loop_round fuel service raw (one f rest) q h again =
    let inner = again rest (omega (arith, next_frame-shorter service raw f rest q)) in
    (record inner.0 { frames = f ∷ inner.0.frames }, rw (read_loop, q, inner.1))

read_loop_total :
    (fuel : ℕ) (service : PacketHeader → ℕ) (raw : List ℕ)
    → length raw < fuel
    → Ends fuel service raw
read_loop_total zero service raw h = elim h [ ]
read_loop_total (suc fuel) service raw h =
    read_loop_round fuel service raw (next_frame service raw) refl (omega arith)
      (λ rest k. read_loop_total fuel service rest k)

-- For every size function that is never negative and all chunks, the loop of
-- ReadFramesWithCombiner ends, and the chunks afterwards are what it put back.
pub read_frames_total :
    (service : PacketHeader → ℕ) (incoming : Chunks)
    → (o : Outcome) × (read_frames service incoming ≡ some (o, prepend_incoming o.put_back []))
unfolding read_frames
read_frames_total service incoming =
    let ends =
      read_loop_total (length (drain_incoming incoming) + 1) service (drain_incoming incoming)
        (omega arith) in
    (ends.0, rw (read_frames, ends.1))

-- ===== src/Upload/Send/Parts.antt =====
-- The parts of a block lie end to end, and carry its bytes.
use goed2k.Common.{
  take-drop, ℕ, zero, suc, ◌+◌, ◌*◌, ◌/◌, ◌<◌, ◌≤◌, ◌≡◌, refl, ◌∙◌, List, [], ◌∷◌, ◌++◌, append-nil,
  append_assoc, length, length-take, length-drop, take, drop, Bool, true, some, ltb, ◌==◌,
  if◌then◌else◌, arith, Bool-cases, inl, inr,
}
use native.Mathlib.Nat.{div-lt_iff_lt-mul}
use goed2k.Upload.{Packet, sending_part, Client, send}
use goed2k.Upload.Send.{send_part, first_packet_size, send_loop, send_payload}

-- Parts that lie end to end from an offset on, each with the bytes of its range and within the
-- bound, and that carry the payload together.
pub data Tiles (bound : ℕ) : ℕ → List ℕ → List Packet → Type 0 where
  all_sent : {offset : ℕ} → Tiles bound offset [] []
  then_part :
      {offset : ℕ} {payload : List ℕ} {ps : List Packet} (end : ℕ) (part rest : List ℕ)
      → end ≡ offset + length part
      → 0 < length part
      → length part < bound
      → payload ≡ part ++ rest
      → Tiles bound end rest ps
      → Tiles bound offset payload (sending_part offset end part ∷ ps)

abbrev Sends : ℕ → ℕ → List ℕ → Client → Client × Bool → Type 0
Sends bound offset payload c r =
    (ps : List Packet) × (r ≡ (record c { packets = c.packets ++ ps }, true))
    × Tiles bound offset payload ps

nothing_left :
    (bound offset : ℕ) (payload : List ℕ) (c : Client)
    → length payload ≡ 0
    → Sends bound offset payload c (c, true)
nothing_left bound offset [] c h = ([], rw (append-nil c.packets) refl, all_sent)
nothing_left bound offset (x ∷ xs) c h = absurd (omega (arith, h))

send_part_lem :
    (offset size : ℕ) (payload : List ℕ) (c : Client)
    → 0 < size
    → size ≤ length payload
    → send_part offset (offset + size) (take size payload) c
      ≡ some (send (sending_part offset (offset + size) (take size payload)) c)
unfolding send_part
send_part_lem offset size payload c h l = ground (arith, length-take size payload)

-- One more part in front.
one_more :
    (offset size : ℕ) (payload : List ℕ) (c : Client) (r : Client × Bool)
    → 0 < size
    → size ≤ length payload
    → size < 40960
    → Sends 40960
        (offset + size)
        (drop size payload)
        (send (sending_part offset (offset + size) (take size payload)) c)
        r
    → Sends 40960 offset payload c r
one_more offset size payload c r h l b (ps, e, t) = (
  sending_part offset (offset + size) (take size payload) ∷ ps,
  e ∙ (simp (append_assoc) refl),
  then_part (offset + size) (take size payload) (drop size payload)
      (omega (arith, length-take size payload)) (omega (arith, length-take size payload))
      (omega (arith, length-take size payload)) (take-drop size payload) t,
)

send_loop-Tiles :
    (n packet_size offset : ℕ) (payload : List ℕ) (c : Client)
    → length payload ≤ n
    → (0 < length payload → 0 < packet_size × packet_size ≤ 20480)
    → Sends 40960 offset payload c (send_loop n packet_size offset payload c)
unfolding send_loop
send_loop-Tiles zero packet_size offset payload c h p =
    nothing_left 40960 offset payload c (omega arith)
send_loop-Tiles (suc n) packet_size offset payload c h p = elim (Bool-cases (length payload == 0)) [
  | inl empty ↦ rw (empty) (nothing_left 40960 offset payload c (ground (arith, empty)))
  | inr more ↦
      let size : ℕ =
        if ltb (length payload) (packet_size * 2) then length payload else packet_size in
      let some_left : 0 < length payload = ground (arith, more) in
      let positive : 0 < size = ground (arith, (p some_left).0) in
      let fits : size ≤ length payload = ground arith in
      let small : size < 40960 = ground (arith, (p some_left).1) in
      let next = send (sending_part offset (offset + size) (take size payload)) c in
      let left = length-drop size payload in
      let ih =
        send_loop-Tiles n size (offset + size) (drop size payload) next (omega arith)
          (λ q. (positive, ground (arith, (p some_left).1))) in
      rw (more, send_part_lem offset size payload c positive fits)
        (one_more offset size payload c _ positive fits small ih)
]

-- More than 10 KiB are divided by their number of blocks of 10 KiB.
big_lem : (togo : ℕ) → 10240 < togo → (0 < togo / (togo / 10240)) × (togo / (togo / 10240) ≤ 20480)
big_lem togo h =
    let q : ℕ = togo / 10240 in
    let positive : 0 < q = omega (arith, h) in
    let some_bytes : togo / q < 1 → ⊥ = λ l. omega (arith, h, (div-lt_iff_lt-mul positive).0 l) in
    let few : togo / q < 20481 = (div-lt_iff_lt-mul positive).1 (omega (arith, h)) in
    (omega (arith, some_bytes), omega (arith, few))

first_packet_size_lem :
    (togo : ℕ) → 0 < togo → (0 < first_packet_size togo) × (first_packet_size togo ≤ 20480)
first_packet_size_lem togo h = ground (arith, big_lem togo)

-- The loop of SendBlockData sends a payload completely: parts that lie end to end from the
-- beginning of the block, each with the bytes of its range, none empty, none of 40960 bytes or
-- more.
pub send_payload-Tiles :
    (begin : ℕ) (payload : List ℕ) (c : Client)
    → (ps : List Packet) × (send_payload begin payload c
        ≡ (record c { packets = c.packets ++ ps }, true))
      × Tiles 40960 begin payload ps
unfolding send_payload
send_payload-Tiles begin payload c =
    send_loop-Tiles (length payload) (first_packet_size (length payload)) begin payload c
      (omega arith) (first_packet_size_lem (length payload))

-- ===== src/Upload/Send.antt =====
-- `SendBlockData` of peer_connection.go: a block that was asked for is cut into parts.
pub mod Parts
use goed2k.Common.{
  ℕ, zero, suc, ◌+◌, ◌-◌, ◌*◌, ◌/◌, List, [], ◌∷◌, ◌++◌, length, take, drop, Bool, true, false,
  ◌||◌, not, Option, none, some, ltb, leb, ◌==◌, if◌then◌else◌,
}
use goed2k.Upload.{RequestedUploadBlock, Packet, sending_part, Client, send}

-- `SendPart` of a connection with a transfer: the payload has the size of its range. That packing
-- does not fail is taken for granted (both packets are registered, and a buffer takes every write), and
-- that a file of at most 2^32 - 1 bytes has no offset that its 32 bits cut off.
unfoldable pub send_part : ℕ → ℕ → List ℕ → Client → Option Client
send_part begin end payload c =
    if leb end begin || not (length payload == end - begin)
    then none
    else some (send (sending_part begin end payload) c)

abbrev pub first_packet_size : ℕ → ℕ
first_packet_size togo = if ltb 10240 togo then togo / (togo / 10240) else togo

-- The connection after the loop, and whether every part was sent. `togo` is the size of the payload
-- that is left. No round is without progress, so as many rounds as bytes are enough.
unfoldable pub send_loop : ℕ → ℕ → ℕ → List ℕ → Client → Client × Bool
send_loop zero packet_size offset payload c = (c, true)
send_loop (suc n) packet_size offset payload c =
    let togo = length payload in
    let size = if ltb togo (packet_size * 2) then togo else packet_size in
    let rest : Client × Bool = elim (send_part offset (offset + size) (take size payload) c) [
      | none ↦ (c, false)
      | some c' ↦ send_loop n size (offset + size) (drop size payload) c'
    ] in
    if togo == 0 then (c, true) else rest

unfoldable pub send_payload : ℕ → List ℕ → Client → Client × Bool
send_payload begin payload c =
    send_loop (length payload) (first_packet_size (length payload)) begin payload c

-- What becomes of the first block: nothing to do, not allowed, an error, or sent.
pub data Sent : Type 0 where
  nothing refused failed complete : Sent

abbrev pub finished : RequestedUploadBlock → Client × Bool → Client × Sent
finished b (c, false) = (c, failed)
finished b (c, true) =
    (record c { done = c.done ++ (record b { transferred = b.end - b.begin } ∷ []) }, complete)

-- An empty payload leaves the block out of those that are done.
abbrev pub with_payload : RequestedUploadBlock → Client → Option (List ℕ) → Client × Sent
with_payload b c none = (c, failed)
with_payload b c (some []) = (c, nothing)
with_payload b c (some (x ∷ xs)) = finished b (send_payload b.begin (x ∷ xs) c)

-- `can_upload` and `read` are `CanUploadRange` and `ReadRange` of the transfer.
unfoldable pub send_first_block :
    (ℕ → ℕ → Bool) → (ℕ → ℕ → Option (List ℕ)) → List RequestedUploadBlock → Client → Client × Sent
send_first_block can_upload read [] c = (c, nothing)
send_first_block can_upload read (b ∷ bs) c =
    let c' : Client = record c { blocks = bs } in
    elim c.transfer [
      | none ↦ (c, nothing)
      | some t ↦
          if can_upload b.begin b.end then with_payload b c' (read b.begin b.end) else (c', refused)
    ]

-- ===== src/Geometry/Request/Tiling.antt =====
-- What the requests for a range of bytes cover.
use goed2k.Common.{
  ℕ, zero, suc, ◌+◌, ◌-◌, ◌/◌, ◌%◌, ◌≤◌, ◌<◌, ◌≡◌, ◌⊎◌, inl, inr, List, [], ◌∷◌, ◌++◌, append_assoc,
  arith, dec_lt, append-nil, ap, ◌∙◌,
}
use goed2k.Common.Int.{ℤ, pos, negsuc, ◌≤ℤ◌, ◌<ℤ◌}
use goed2k.Geometry.{PieceBlock, piece_size, min_size, range}
use goed2k.Geometry.Block.{IsBlock}
use goed2k.Geometry.Request.{
  PeerRequest, ok, err, invalid_parameter, overflow, make_peer_request, next_boundary, min_ℤ,
  requests_loop, make_peer_requests, make_peer_request_from_block, in_block_offset, request_range,
}

-- A request that is not empty and stays within its piece.
pub record IsWithinPiece (r : PeerRequest) : Type 0 where
  pub starts : r.start < piece_size
  pub holds : 0 < r.size
  pub ends : r.start + r.size ≤ piece_size

-- The requests lie end to end from `a` to `b`, each within one piece.
abbrev pub Tiles : ℕ → ℕ → List PeerRequest → Type 0
Tiles a b [] = a ≡ b
Tiles a b (r ∷ rs) =
    ((request_range r).left ≡ a) × IsWithinPiece r × Tiles (request_range r).right b rs

cases :
    (begin end : ℕ)
    → (end ≤ begin) ⊎ (begin + piece_size < end) ⊎ ((begin < end) × (end ≤ begin + piece_size))
cases begin end = grind arith

-- A request is granted exactly for a range that is not empty, does not begin below 0 and is no
-- longer than a piece; its range is then the one that was asked for.
pub make_peer_request_lem :
    (begin end : ℕ)
    → ((r : PeerRequest) × (make_peer_request (pos begin) (pos end) ≡ ok r)
        × (request_range r ≡ record { left = begin; right = end }))
      ⊎ ((make_peer_request (pos begin) (pos end) ≡ err invalid_parameter) × (end ≤ begin))
      ⊎ ((make_peer_request (pos begin) (pos end) ≡ err overflow) × (begin + piece_size < end))
unfolding make_peer_request request_range
make_peer_request_lem begin end = elim (cases begin end) [
  | inl h ↦ inr (inl (ground arith, h))
  | inr (inl h) ↦ inr (inr (ground arith, h))
  | inr (inr h) ↦ inl (
    record { piece = begin / piece_size; start = begin % piece_size; size = end - begin },
    ground arith,
    ground arith,
  )
]

-- One round.
requests_loop_round :
    (fuel i end : ℕ) (reqs : List PeerRequest)
    → i < end
    → (r : PeerRequest) × (requests_loop (suc fuel) (pos i) (pos end) reqs
        ≡ requests_loop fuel (pos (i + r.size)) (pos end) (reqs ++ (r ∷ [])))
      × IsWithinPiece r
      × (request_range r ≡ record { left = i; right = i + r.size })
      × ((i + r.size ≡ end) ⊎ (i + r.size ≡ i + piece_size - i % piece_size))
      × (i + r.size ≤ end)
unfolding requests_loop make_peer_request next_boundary request_range
requests_loop_round fuel i end reqs h =
    let stop : ℕ = min_size end (i + piece_size - i % piece_size) in
    (
      record { piece = i / piece_size; start = i % piece_size; size = stop - i },
      ground arith,
      ground arith,
      ground arith,
      ground arith,
      ground arith,
    )

-- A boundary lies one piece further on.
boundary_fuel :
    (fuel i end size : ℕ)
    → (i + size ≡ end) ⊎ (i + size ≡ i + piece_size - i % piece_size)
    → i + size < end
    → end / piece_size < suc fuel + i / piece_size
    → end / piece_size < fuel + (i + size) / piece_size
boundary_fuel fuel i end size stop h f = omega arith

-- The loop goes on from `i` to `end` and adds what tiles that range.
requests_loop-Tiles :
    (fuel i end : ℕ) (reqs : List PeerRequest)
    → i ≤ end
    → (i < end → end / piece_size < fuel + i / piece_size)
    → (rs : List PeerRequest) × (requests_loop fuel (pos i) (pos end) reqs ≡ ok (reqs ++ rs))
      × Tiles i end rs
requests_loop-Tiles zero i end reqs h f = elim (dec_lt i end) [
  | no done ↦ ([], unfold requests_loop in ground (arith, append-nil reqs), omega arith)
  | yes more ↦ absurd (omega (arith, f more))
]
requests_loop-Tiles (suc fuel) i end reqs h f = elim (dec_lt i end) [
  | no done ↦ ([], unfold requests_loop in ground (arith, append-nil reqs), omega arith)
  | yes more ↦
      let (r, e, w, g, stop, le) = requests_loop_round fuel i end reqs more in
      let (rs, e', t) =
        requests_loop-Tiles fuel (i + r.size) end (reqs ++ (r ∷ [])) le
          (λ more'. boundary_fuel fuel i end r.size stop more' (f more)) in
      (r ∷ rs, e ∙ e' ∙ ap ok (append_assoc reqs (r ∷ []) rs), (rw g, w, rw g t))
]

min_ℤ-pos : (a b : ℕ) → min_ℤ (pos a) (pos b) ≡ pos (min_size b a)
min_ℤ-pos a b = ground arith

-- For a begin, an end and a file size that are not negative, and a begin that is not behind the
-- end, MakePeerRequests succeeds, and its requests lie end to end from the begin to the end,
-- both cut off at the file size; each request is not empty and stays within one piece.
pub make_peer_requests-Tiles :
    (begin end fsize : ℕ)
    → begin ≤ end
    → (rs : List PeerRequest) × (make_peer_requests (pos begin) (pos end) (pos fsize) ≡ ok rs)
      × Tiles (min_size fsize begin) (min_size fsize end) rs
unfolding make_peer_requests
make_peer_requests-Tiles begin end fsize h =
    rw (min_ℤ-pos, min_ℤ-pos)
      (requests_loop-Tiles (min_size fsize end / piece_size + 1) (min_size fsize begin)
        (min_size fsize end) [] (ground arith) (λ _. omega arith))

-- A range that begins below 0 and is not empty is refused as a whole, and an empty range needs no request.
pub make_peer_requests_refused :
    (begin : ℕ) (end fsize : ℤ)
    → negsuc begin <ℤ end
    → negsuc begin <ℤ fsize
    → make_peer_requests (negsuc begin) end fsize ≡ err invalid_parameter
unfolding make_peer_requests requests_loop make_peer_request
make_peer_requests_refused begin end fsize h k = ground arith

pub make_peer_requests_empty :
    (begin end : ℤ) (fsize : ℕ) → end ≤ℤ begin → make_peer_requests begin end (pos fsize) ≡ ok []
unfolding make_peer_requests requests_loop
make_peer_requests_empty begin end fsize h = ground arith

-- For a block that begins in the file MakePeerRequestFromBlock succeeds: the request has the
-- range of the block, stays within one piece, begins at the start of a block, and names the
-- piece of the block.
pub request-block :
    (b : PieceBlock) (fsize : ℕ)
    → IsBlock b
    → (range b fsize).left < fsize
    → (r : PeerRequest) × (make_peer_request_from_block b fsize ≡ ok r)
      × (request_range r ≡ range b fsize)
      × IsWithinPiece r
      × (in_block_offset r ≡ 0)
      × (r.piece ≡ b.piece_index)
unfolding make_peer_request_from_block make_peer_request request_range in_block_offset range
request-block b fsize h k =
    let left : ℕ = (range b fsize).left in
    (
      record {
        piece = left / piece_size;
        start = left % piece_size;
        size = (range b fsize).right - left;
      },
      ground arith,
      ground arith,
      ground arith,
      ground arith,
      ground arith,
    )

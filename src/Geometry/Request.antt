-- ===== src/Geometry/Request.antt =====
-- Requests for a range of bytes within one piece: data/peer_request.go. `begin` and `end` may be
-- negative, as in Go.
pub mod Tiling
use goed2k.Common.{
  ℕ, zero, suc, ◌+◌, ◌-◌, ◌*◌, ◌/◌, ◌%◌, List, [], ◌∷◌, ◌++◌, ltb, leb, if◌then◌else◌,
}
use goed2k.Common.Int.{ℤ, pos, negsuc, sub_ℕ, ltb_ℤ, pos_part}
use goed2k.Geometry.{PieceBlock, Range, piece_size, block_size}
use goed2k.Geometry

pub data Error : Type 0 where
  invalid_parameter overflow : Error

-- Go's (value, error) pair. `stuck` is no Go value: the loop's fuel ran out.
pub data Result {ℓ} (A : Type ℓ) : Type ℓ where
  ok : A → Result A
  err : Error → Result A
  stuck : Result A

infixl 5 ◌>>=◌
abbrev pub ◌>>=◌ {ℓ κ} : {A : Type ℓ} {B : Type κ} → Result A → (A → Result B) → Result B
ok a >>= f = f a
err e >>= f = err e
stuck >>= f = stuck

pub record PeerRequest : Type 0 where
  pub piece : ℕ
  pub start : ℕ
  pub size : ℕ

-- The guard `end <= begin || begin < 0` fails on all but the first clause.
unfoldable pub make_peer_request : ℤ → ℤ → Result PeerRequest
make_peer_request (pos begin) (pos end) =
    let pr : PeerRequest = record {
      piece = begin / piece_size;
      start = begin % piece_size;
      size = end - begin;
    } in
    if leb end begin
    then err invalid_parameter
    else (if ltb piece_size pr.size then err overflow else ok pr)
make_peer_request (pos begin) (negsuc end) = err invalid_parameter
make_peer_request (negsuc begin) end = err invalid_parameter

-- `i + prPieceSize - i%prPieceSize`; Go's `%` takes the sign of `i`.
unfoldable pub next_boundary : ℤ → ℤ
next_boundary (pos i) = pos (i + piece_size - i % piece_size)
next_boundary (negsuc i) = sub_ℕ (piece_size + suc i % piece_size) (suc i)

abbrev pub min_ℤ : ℤ → ℤ → ℤ
min_ℤ a b = if ltb_ℤ b a then b else a

-- The loop over `i`, with fuel. After `i += pr.Length` the position is `i + pr.Length`; it is not
-- negative, since a request is made from a position that is not.
unfoldable pub requests_loop : ℕ → ℤ → ℤ → List PeerRequest → Result (List PeerRequest)
requests_loop zero i end reqs = if ltb_ℤ i end then stuck else ok reqs
requests_loop (suc fuel) i end reqs =
    let round = make_peer_request i (min_ℤ (next_boundary i) end) >>= λ pr.
    requests_loop fuel (pos (pos_part i + pr.size)) end (reqs ++ (pr ∷ [])) in
    if ltb_ℤ i end then round else ok reqs

-- Each round but the last ends at a piece's boundary, so one round for each piece of the range is enough.
unfoldable pub make_peer_requests : ℤ → ℤ → ℤ → Result (List PeerRequest)
make_peer_requests begin end fsize =
    let first = min_ℤ begin fsize in
    let last = min_ℤ end fsize in requests_loop (pos_part last / piece_size + 1) first last []

pub make_peer_request_from_block : PieceBlock → ℕ → Result PeerRequest
make_peer_request_from_block block fsize =
    let r = Geometry.range block fsize in make_peer_request (pos r.left) (pos r.right)

pub in_block_offset : PeerRequest → ℕ
in_block_offset p = p.start % block_size

unfoldable pub request_range : PeerRequest → Range
request_range p =
    let begin = p.piece * piece_size + p.start in record { left = begin; right = begin + p.size }

-- ===== src/Geometry/Examples.antt =====
-- Runs of the operations, and the theorems at concrete inputs.
use goed2k.Common.{◌/◌, ◌≤◌, ◌<◌, ◌≡◌, refl, List, [], ◌∷◌, arith}
use goed2k.Common.Int.{pos, negsuc}
use goed2k.Geometry.{PieceBlock, range, blocks_offset, make_piece_block, block_size, block_bytes}
use goed2k.Geometry.Block.{range-make_piece_block}
use goed2k.Geometry.Request.{
  PeerRequest, ok, make_peer_requests, make_peer_request_from_block, requests_loop,
  make_peer_request, next_boundary, request_range, in_block_offset,
}
use goed2k.Geometry.Request.Tiling.{Tiles, IsWithinPiece, make_peer_requests-Tiles, request-block}

abbrev second_block : PieceBlock
second_block = record { piece_index = 1; piece_block = 2 }

block_behind_end : block_bytes second_block 9728000 ≡ negsuc 389119
unfolding block_bytes range
block_behind_end = refl

two_pieces :
    make_peer_requests (pos 9727999) (pos 9728002) (pos 20000000)
    ≡ ok (
        record { piece = 0; start = 9727999; size = 1 }
        ∷ record { piece = 1; start = 0; size = 2 }
        ∷ [])
unfolding make_peer_requests requests_loop make_peer_request next_boundary
two_pieces = refl

range-make_piece_block_example :
    let r = range (make_piece_block 9930000) 10000000 in
    (r.left ≤ 9930000)
    × (9930000 < r.right)
    × (r.right ≤ 10000000)
    × (blocks_offset (make_piece_block 9930000) ≡ 9930000 / block_size)
range-make_piece_block_example = range-make_piece_block 9930000 10000000 (omega arith)

make_peer_requests-Tiles_example :
    (rs : List PeerRequest) × (make_peer_requests (pos 5) (pos 30000000) (pos 20000000) ≡ ok rs)
    × Tiles 5 20000000 rs
make_peer_requests-Tiles_example = make_peer_requests-Tiles 5 30000000 20000000 (omega arith)

request-block_example :
    (r : PeerRequest) × (make_peer_request_from_block second_block 20000000 ≡ ok r)
    × (request_range r ≡ range second_block 20000000)
    × IsWithinPiece r
    × (in_block_offset r ≡ 0)
    × (r.piece ≡ 1)
unfolding range
request-block_example = request-block second_block 20000000 (omega arith) (omega arith)

abbrev first_block : PieceBlock
first_block = record { piece_index = 0; piece_block = 49 }

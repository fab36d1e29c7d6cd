-- ===== src/Picker.antt =====
-- The choice of the blocks that a transfer requests next: downloading_piece.go and piece_picker.go.
pub mod Block
pub mod Piece
pub mod State
pub mod Rounds
pub mod Run
mod Examples

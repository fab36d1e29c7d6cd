-- ===== src/Storage.antt =====
-- Downloaded bytes on their way to the disk and into the hash of their piece.
pub mod Blocks
pub mod Pieces
mod Examples

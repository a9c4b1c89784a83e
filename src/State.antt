-- ===== src/State.antt =====
-- The State layer of the engine, crates/attic-state.
pub mod Piece
pub mod Square
pub mod Hand
pub mod Bitboard
pub mod Board
pub mod Move
pub mod Key
pub mod Position
pub mod PackedSfen
pub mod Usi
pub mod Sfen
mod Examples

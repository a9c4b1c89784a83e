-- ===== src/Storage.antt =====
-- The Storage layer of the engine: the transposition table of crates/attic-storage/src/tt.rs.
pub mod Entry
pub mod Table
pub mod Bytes
pub mod Book
mod Examples

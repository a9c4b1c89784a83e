-- ===== src/State/Position.antt =====
-- `Position` of crates/attic-state/src/position.rs, in the default build: release, with the
-- `quick-draw` feature. Vectors that grow at the end are lists with their last element first.
pub mod Types
pub mod Moves
pub mod Null
pub mod Keys
pub mod Hash
pub mod Toggles
pub mod HandSum
pub mod Valid
pub mod Undo
pub mod Exact
pub mod Repetition
pub mod Setters
pub mod King
mod Examples

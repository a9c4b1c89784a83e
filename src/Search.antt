-- ===== src/Search.antt =====
-- The Search layer of the engine, crates/attic-search: the history tables that order moves.
pub mod History
mod Examples

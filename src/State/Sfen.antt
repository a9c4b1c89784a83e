-- ===== src/State/Sfen.antt =====
-- SFEN texts of positions, crates/attic-state/src/sfen.rs. A text is the list of its characters.
pub mod Chars
pub mod Parser
pub mod Printer
pub mod Outcome
pub mod BoardField
pub mod Sound
pub mod Rows
pub mod Copy
pub mod BoardRoundTrip
pub mod Numbers
pub mod Gained
pub mod HandRoundTrip
pub mod Spaces
pub mod RoundTrip
mod Examples

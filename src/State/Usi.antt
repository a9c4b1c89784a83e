-- ===== src/State/Usi.antt =====
-- USI move texts, of crates/attic-state/src/move_.rs. A text is the list of its bytes, and a `char`
-- that is made of a byte is that byte.
pub mod Parser
pub mod Printer
pub mod Squares
pub mod RoundTrip
pub mod Sound

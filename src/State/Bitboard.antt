-- ===== src/State/Bitboard.antt =====
-- The 81-square set of crates/attic-state/src/bitboard.rs: two 64-bit lanes, square 0 to 62 in the
-- first and 63 to 80 in the second. The SSE2 forms of the lane operations are their scalar forms.
pub mod Laws
pub mod Raw
pub mod Rays
pub mod Sliders
pub mod Slide
pub mod Iter
pub mod Geometry
pub mod Between
mod Examples
pub mod Rounds
pub mod Lowest
pub mod Squares
pub mod Steps
pub mod Files
pub mod Attacks
pub mod Lines
pub mod Down
pub mod Walk
pub mod Cuts
pub mod Slides
pub mod Reverse
use attic_shogi.Prelude.{
  ℕ, ◌+◌, ◌-◌, ◌*◌, ◌/◌, ◌%◌, ◌^◌, bit_and, bit_or, bit_xor, Bool, ◌&&◌, not, ltb, ◌==◌,
  if◌then◌else◌,
}
use attic_shogi.State.Square.{Square, square_count}

pub record Bitboard : Type 0 where
  pub p0 : ℕ
  pub p1 : ℕ

abbrev pub lane_split : ℕ
lane_split = 62

abbrev pub lane0_span : ℕ
lane0_span = 63

abbrev pub p0_mask : ℕ
p0_mask = 2 ^ 63 - 1

abbrev pub p1_mask : ℕ
p1_mask = 2 ^ 18 - 1

abbrev pub empty : Bitboard
empty = record { p0 = 0; p1 = 0 }

abbrev pub full : Bitboard
full = record { p0 = p0_mask; p1 = p1_mask }

-- `Bitboard::single`; an index of 81 or more gives the empty set.
unfoldable pub single : ℕ → Bitboard
single i =
    if ltb (square_count - 1) i
    then empty
    else if ltb lane_split i
    then record { p0 = 0; p1 = 2 ^ (i - lane0_span) }
    else record { p0 = 2 ^ i; p1 = 0 }

-- The entries of `SQUARE_BB`, which `Bitboard::from_square` loads.
unfoldable pub from_square : Square → Bitboard
from_square s =
    if ltb lane_split s
    then record { p0 = 0; p1 = 2 ^ (s - lane0_span) }
    else record { p0 = 2 ^ s; p1 = 0 }

unfoldable pub union : Bitboard → Bitboard → Bitboard
union a b = record { p0 = bit_or a.p0 b.p0; p1 = bit_or a.p1 b.p1 }

unfoldable pub inter : Bitboard → Bitboard → Bitboard
inter a b = record { p0 = bit_and a.p0 b.p0; p1 = bit_and a.p1 b.p1 }

unfoldable pub sym_diff : Bitboard → Bitboard → Bitboard
sym_diff a b = record { p0 = bit_xor a.p0 b.p0; p1 = bit_xor a.p1 b.p1 }

-- `!` is `^ FULL`, which keeps the spare bits clear.
unfoldable pub complement : Bitboard → Bitboard
unfolding sym_diff
complement a = sym_diff a full

-- `!x` on a `u64`.
abbrev pub not64 : ℕ → ℕ
not64 x = 2 ^ 64 - 1 - x

unfoldable pub without_index : Bitboard → ℕ → Bitboard
without_index a i =
    if ltb lane_split i
    then record a { p1 = bit_and a.p1 (not64 (2 ^ (i - lane0_span))) }
    else record a { p0 = bit_and a.p0 (not64 (2 ^ i)) }

unfoldable pub contains_index : Bitboard → ℕ → Bool
contains_index a i =
    if ltb lane_split i
    then not (bit_and a.p1 (2 ^ (i - lane0_span)) == 0)
    else not (bit_and a.p0 (2 ^ i) == 0)

unfoldable pub is_empty : Bitboard → Bool
is_empty a = a.p0 == 0 && a.p1 == 0

-- `lane_testz`: no bit is in both.
unfoldable pub lane_testz : Bitboard → Bitboard → Bool
lane_testz a b = bit_and a.p0 b.p0 == 0 && bit_and a.p1 b.p1 == 0

unfoldable pub test : Bitboard → Square → Bool
unfolding lane_testz from_square
test a s = not (lane_testz a (from_square s))

-- `Bitboard::set` and `Bitboard::clear`.
unfoldable pub insert : Bitboard → Square → Bitboard
unfolding union from_square
insert a s = union a (from_square s)

unfoldable pub clear : Bitboard → Square → Bitboard
unfolding without_index
clear a s = without_index a s

-- `to_contiguous` and `from_contiguous`: bit `i` of a 128-bit word is square `i`.
unfoldable pub raw : Bitboard → ℕ
raw a = bit_or a.p0 (a.p1 * 2 ^ 63)

unfoldable pub from_raw : ℕ → Bitboard
from_raw bits =
    let b = bit_and bits (2 ^ 81 - 1) in
    record { p0 = bit_and b (2 ^ 63 - 1); p1 = b / 2 ^ 63 % 2 ^ 64 }

-- ===== src/State/Bitboard/Laws.antt =====
-- Membership after each operation. `member a i` is the bit of square `i`, at its lane.
use attic_shogi.Prelude.{
  ℕ, ◌+◌, ◌-◌, ◌%◌, ◌^◌, ◌<◌, min, max, bit_and, ◌≡◌, ◌∙◌, not, ltb, ◌==◌, if◌then◌else◌, arith,
}
use attic_shogi.Prelude.Bits.{
  digit, digit-lt, digit-zero, digit-bit_xor, eq_of_digits, digit-bit_or, digit-bit_and,
  bit_and-two_pow, bit_and-zero,
}
use native.Mathlib.Nat.{one-le-pow}
use attic_shogi.Prelude.Masks.{digit-two_pow, digit-clear, digit_above}
use attic_shogi.State.Square.{Square, IsSquare}
use attic_shogi.State.Bitboard.{
  Bitboard, lane_split, lane0_span, empty, from_square, union, inter, sym_diff, without_index,
  contains_index, lane_testz, test, insert, clear,
}

-- The bit of square `i`, 0 or 1.
unfoldable pub member : Bitboard → ℕ → ℕ
member a i = if ltb lane_split i then digit a.p1 (i - lane0_span) else digit a.p0 i

pub member-lt : (a : Bitboard) (i : ℕ) → member a i < 2
unfolding member
member-lt a i = ground (arith, digit-lt a.p1 (i - lane0_span), digit-lt a.p0 i)

pub and_two_pow-eq_zero : (x k : ℕ) → (bit_and x (2 ^ k) == 0) ≡ (digit x k == 0)
and_two_pow-eq_zero x k = grind (arith, bit_and-two_pow x k, one-le-pow k 2, digit-lt x k)

-- The three ways to ask for a member agree.
pub contains_index-eq_member : (a : Bitboard) (i : ℕ) → contains_index a i ≡ not (member a i == 0)
unfolding contains_index member
contains_index-eq_member a i =
    ground (arith, and_two_pow-eq_zero a.p1 (i - lane0_span), and_two_pow-eq_zero a.p0 i)

pub member-empty : (i : ℕ) → member empty i ≡ 0
unfolding member
member-empty i = ground (arith, digit-zero i, digit-zero (i - lane0_span))

pub member-from_square : (s i : ℕ) → member (from_square s) i ≡ (if s == i then 1 else 0)
unfolding member from_square
member-from_square s i = ground (
  arith,
  digit-two_pow s i,
  digit-two_pow (s - lane0_span) (i - lane0_span),
  digit-zero i,
  digit-zero (i - lane0_span),
)

pub member-sym_diff :
    (a b : Bitboard) (i : ℕ) → member (sym_diff a b) i ≡ (member a i + member b i) % 2
unfolding member sym_diff
member-sym_diff a b i =
    ground (arith, digit-bit_xor a.p0 b.p0 i, digit-bit_xor a.p1 b.p1 (i - lane0_span))

pub member-union : (a b : Bitboard) (i : ℕ) → member (union a b) i ≡ max (member a i) (member b i)
unfolding member union
member-union a b i =
    ground (arith, digit-bit_or a.p0 b.p0 i, digit-bit_or a.p1 b.p1 (i - lane0_span))

pub member-inter : (a b : Bitboard) (i : ℕ) → member (inter a b) i ≡ min (member a i) (member b i)
unfolding member inter
member-inter a b i =
    ground (arith, digit-bit_and a.p0 b.p0 i, digit-bit_and a.p1 b.p1 (i - lane0_span))

pub test-eq_contains_index : (a : Bitboard) (s : Square) → test a s ≡ contains_index a s
unfolding test lane_testz from_square contains_index
test-eq_contains_index a s = ground (arith, bit_and-zero a.p0, bit_and-zero a.p1)

-- `test` of a square is whether its bit is set in the lane that holds it.
pub test-eq_member : (a : Bitboard) (s : Square) → test a s ≡ not (member a s == 0)
test-eq_member a s = test-eq_contains_index a s ∙ contains_index-eq_member a s

-- Inserting a square sets its bit and no other.
pub member-insert :
    (a : Bitboard) (s i : ℕ) → member (insert a s) i ≡ (if s == i then 1 else member a i)
unfolding insert
member-insert a s i =
    ground (arith, member-union a (from_square s) i, member-from_square s i, member-lt a i)

-- Clearing a square resets its bit and no other, on the 81 squares.
pub member-clear :
    (a : Bitboard) (s i : ℕ)
    → IsSquare s
    → IsSquare i
    → member (clear a s) i ≡ (if s == i then 0 else member a i)
unfolding member clear without_index
member-clear a s i p q =
    ground (arith, digit-clear a.p0 s i, digit-clear a.p1 (s - lane0_span) (i - lane0_span))

-- The spare bits are clear: bit 63 of the first lane, and those from 18 of the second.
pub record IsCanonical (a : Bitboard) : Type 0 where
  pub lane0 : a.p0 < 2 ^ 63
  pub lane1 : a.p1 < 2 ^ 18

-- Two sets whose spare bits are clear and whose members are the same squares are equal.
pub eq_of_members :
    {a b : Bitboard}
    → IsCanonical a
    → IsCanonical b
    → ((i : ℕ) → IsSquare i → member a i ≡ member b i)
    → a ≡ b
eq_of_members {a} {b} ca cb h = λ j. record { p0 = first j; p1 = second j }
  where
    first : a.p0 ≡ b.p0
    first = eq_of_digits _ _ λ k.
        unfold member in
        ground (arith, h k, digit_above 63 a.p0 k ca.lane0, digit_above 63 b.p0 k cb.lane0)

    second : a.p1 ≡ b.p1
    second = eq_of_digits _ _ λ k.
        unfold member in
        ground (arith, h (k + 63), digit_above 18 a.p1 k ca.lane1, digit_above 18 b.p1 k cb.lane1)

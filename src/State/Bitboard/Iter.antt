-- ===== src/State/Bitboard/Iter.antt =====
-- The iterator of crates/attic-state/src/bitboard.rs over the squares of a set, with its size and
-- `lowest_index`.
use attic_shogi.Prelude.{
  ℕ, zero, suc, ◌+◌, ◌-◌, bit_and, not, ◌==◌, if◌then◌else◌, List, [], ◌∷◌, Option, none, some,
}
use attic_shogi.Prelude.Bits.{digit}
use attic_shogi.State.Square.{Square, from_index}
use attic_shogi.State.Bitboard.{Bitboard, lane0_span}

-- The zeros below the lowest set bit, of `n` bits from bit `k` on.
unfoldable pub zeros_from : (n k x : ℕ) → ℕ
unfolding digit
zeros_from zero k x = 0
zeros_from (suc n) k x = let rest = zeros_from n (suc k) x in if digit x k == 0 then suc rest else 0

-- `u64::trailing_zeros`.
unfoldable pub trailing_zeros : ℕ → ℕ
unfolding zeros_from
trailing_zeros x = zeros_from 64 0 x

-- `u64::count_ones`, on `n` bits from bit `k` on.
unfoldable pub ones_from : (n k x : ℕ) → ℕ
unfolding digit
ones_from zero k x = 0
ones_from (suc n) k x = digit x k + ones_from n (suc k) x

unfoldable pub count_ones : ℕ → ℕ
unfolding ones_from
count_ones x = ones_from 64 0 x

unfoldable pub popcount : Bitboard → ℕ
unfolding count_ones
popcount a = count_ones a.p0 + count_ones a.p1

unfoldable pub lowest_index : Bitboard → ℕ
unfolding trailing_zeros
lowest_index a =
    if not (a.p0 == 0)
    then trailing_zeros a.p0
    else if not (a.p1 == 0)
    then trailing_zeros a.p1 + lane0_span
    else 128

pub record BitboardIter : Type 0 where
  pub p0 : ℕ
  pub p1 : ℕ

-- `Bitboard::squares`.
abbrev pub squares : Bitboard → BitboardIter
squares a = record { p0 = a.p0; p1 = a.p1 }

-- What `next` gives: a panic where an index is no square, the end, or a square.
pub data Next : Type 0 where
  panic : Next
  done : Next
  item : Square → BitboardIter → Next

abbrev pub expect_square : ℕ → BitboardIter → Next
unfolding from_index
expect_square i it = elim (from_index i) [ none ↦ panic | some s ↦ item s it ]

unfoldable pub next : BitboardIter → Next
unfolding trailing_zeros from_index
next it =
    if not (it.p0 == 0)
    then expect_square (trailing_zeros it.p0) (record it { p0 = bit_and it.p0 (it.p0 - 1) })
    else if not (it.p1 == 0)
    then expect_square (trailing_zeros it.p1 + lane0_span)
        (record it { p1 = bit_and it.p1 (it.p1 - 1) })
    else done

-- `size_hint`, both bounds of which are this.
unfoldable pub size : BitboardIter → ℕ
unfolding count_ones
size it = count_ones it.p0 + count_ones it.p1

-- The squares of a loop over the iterator; none where it panics or the fuel runs out.
unfoldable pub collect : (fuel : ℕ) → BitboardIter → Option (List Square)
unfolding next
collect zero it = none
collect (suc n) it = elim (next it) [
  | panic ↦ none
  | done ↦ some []
  | item s it' ↦ elim (collect n it') [ none ↦ none | some ss ↦ some (s ∷ ss) ]
]

-- ===== src/State/PackedSfen/Squares.antt =====
-- The king squares and the board in the stream of a packed position, crates/attic-state/src/
-- packed_sfen.rs: the stream tells what stands on every square.
use attic_shogi.Prelude.{
  ℕ, suc, zero, ◌+◌, ◌^◌, ◌≤◌, ◌<◌, ◌≡◌, ◌⊎◌, inl, inr, sym, ap, ◌∙◌, not, bit_and, ◌==◌, [], ◌++◌,
  Option, ℕ_discrete, arith,
}
use attic_shogi.Prelude.Bits.{digit, digit-lt, eq_of_digits}
use attic_shogi.Prelude.Masks.{digit_above}
use attic_shogi.State.Piece.{Piece}
use attic_shogi.State.Square.{Square}
use mathlib.Core.List.{append_assoc}
use attic_shogi.State.Bitboard.Laws.{and_two_pow-eq_zero}
use attic_shogi.State.Board.{Board, get}
use attic_shogi.State.PackedSfen.Stream.{Bits, bits_from, square_bits, board_bits}
use attic_shogi.State.PackedSfen.Reading.{IsPlain, read_square, read_square-square_bits}

-- Numbers of seven bits with the same bits are equal.
bits_from-injective :
    (n x y i : ℕ) (r r' : Bits)
    → bits_from n x i ++ r ≡ bits_from n y i ++ r'
    → ((k : ℕ) → i ≤ k → k < i + n → digit x k ≡ digit y k) × (r ≡ r')
unfolding bits_from
bits_from-injective zero x y i r r' e = (λ k p q. absurd (omega arith), e)
bits_from-injective (suc n) x y i r r' e =
    let rest = bits_from-injective n x y (suc i) r r' (cc e) in
    let first : not (bit_and x (2 ^ i) == 0) ≡ not (bit_and y (2 ^ i) == 0) = cc e in
    (
      λ k p q. elim (ℕ_discrete k i) [
        | yes same ↦ rw same (
            ground (
              arith,
              first,
              and_two_pow-eq_zero x i,
              and_two_pow-eq_zero y i,
              digit-lt x i,
              digit-lt y i,
            ))
        | no other ↦ rest.0 k (omega arith) (omega arith)
      ],
      rest.1,
    )

pub seven_bits :
    (x y : ℕ) (r r' : Bits)
    → x < 128
    → y < 128
    → bits_from 7 x 0 ++ r ≡ bits_from 7 y 0 ++ r'
    → (x ≡ y) × (r ≡ r')
seven_bits x y r r' hx hy e =
    let both = bits_from-injective 7 x y 0 r r' e in
    (
      eq_of_digits x y (λ k. ground (arith, both.0 k, digit_above 7 x k hx, digit_above 7 y k hy)),
      both.1,
    )

-- What two boards may hold on one square: the same king, or no king on either.
abbrev pub Alike : Option Piece → Option Piece → Type 0
Alike o o' = ((o ≡ o') × (square_bits o ≡ []) × (square_bits o' ≡ [])) ⊎ (IsPlain o × IsPlain o')

square-injective :
    (o o' : Option Piece) (r r' : Bits)
    → Alike o o'
    → square_bits o ++ r ≡ square_bits o' ++ r'
    → (o ≡ o') × (r ≡ r')
square-injective o o' r r' (inl (same, none_here, none_there)) e =
    (same, rw (none_here, none_there) at e)
square-injective o o' r r' (inr (v, v')) e =
    let both =
      sym (read_square-square_bits o r v) ∙ ap read_square e ∙ read_square-square_bits o' r' v' in
    (cc both, cc both)

pub board-injective :
    (left : ℕ) (sq : Square) (b b' : Board) (r r' : Bits)
    → ((s : Square) → s < sq + left → Alike (get b s) (get b' s))
    → board_bits left sq b ++ r ≡ board_bits left sq b' ++ r'
    → ((s : Square) → sq ≤ s → s < sq + left → get b s ≡ get b' s) × (r ≡ r')
unfolding board_bits
board-injective zero sq b b' r r' alike e = (λ s p q. absurd (omega arith), e)
board-injective (suc left) sq b b' r r' alike e =
    let first =
      square-injective (get b sq) (get b' sq) (board_bits left (suc sq) b ++ r)
        (board_bits left (suc sq) b' ++ r') (alike sq (omega arith))
        (sym (append_assoc (square_bits (get b sq)) (board_bits left (suc sq) b) r)
          ∙ e
          ∙ append_assoc (square_bits (get b' sq)) (board_bits left (suc sq) b') r') in
    let rest = board-injective left (suc sq) b b' r r' (λ s h. alike s (omega arith)) first.1 in
    (
      λ s p q. elim (ℕ_discrete s sq) [
        | yes same ↦ rw same first.0
        | no other ↦ rest.0 s (omega arith) (omega arith)
      ],
      rest.1,
    )

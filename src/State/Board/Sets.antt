-- ===== src/State/Board/Sets.antt =====
-- Each derived set of a board holds the squares whose piece passes one test. How a toggle of a
-- piece moves such a set.
use attic_shogi.Prelude.{
  ℕ, ◌+◌, ◌-◌, ◌%◌, ◌<◌, ◌≡◌, Bool, List, Option, none, some, get_or, set, length, get_or-set_self,
  get_or-set_ne, ◌==◌, if◌then◌else◌, arith,
}
use attic_shogi.Prelude.Xor.{xor-lt}
use attic_shogi.Prelude.Masks.{two_pow-lt}
use attic_shogi.State.Piece.{Piece}
use attic_shogi.State.Square.{Square, IsSquare, square_count}
use attic_shogi.State.Bitboard.{Bitboard, sym_diff, from_square, lane0_span}
use attic_shogi.State.Bitboard.Laws.{
  member, member-lt, member-sym_diff, member-from_square, IsCanonical,
}

-- The weight of a square's content under a test on pieces.
abbrev pub weight : (Piece → Bool) → Option Piece → ℕ
weight test none = 0
weight test (some p) = if test p then 1 else 0

weight-lt : (test : Piece → Bool) (o : Option Piece) → weight test o < 2
weight-lt test o = ground arith

-- `set` is the set of the squares whose piece passes `test`.
pub record Tracks (squares : List (Option Piece)) (test : Piece → Bool) (bits : Bitboard)
    : Type 0 where
  pub canonical : IsCanonical bits
  pub exact : (s : ℕ) → IsSquare s → member bits s ≡ weight test (get_or squares s none)

-- Flip square `s` of a set when the content passes the test.
abbrev pub flip_at : (Piece → Bool) → Option Piece → Square → Bitboard → Bitboard
flip_at test none s bits = bits
flip_at test (some p) s bits = if test p then sym_diff bits (from_square s) else bits

pub from_square-IsCanonical : (s : Square) → IsSquare s → IsCanonical (from_square s)
unfolding from_square
from_square-IsCanonical s h = ground (arith, two_pow-lt s 63, two_pow-lt (s - lane0_span) 18)

pub sym_diff-IsCanonical :
    (a b : Bitboard) → IsCanonical a → IsCanonical b → IsCanonical (sym_diff a b)
unfolding sym_diff
sym_diff-IsCanonical a b p q = record {
  lane0 = xor-lt 63 a.p0 b.p0 p.lane0 q.lane0;
  lane1 = xor-lt 18 a.p1 b.p1 p.lane1 q.lane1;
}

flip_at-IsCanonical :
    (test : Piece → Bool) (o : Option Piece) (s : Square) (bits : Bitboard)
    → IsSquare s
    → IsCanonical bits
    → IsCanonical (flip_at test o s bits)
flip_at-IsCanonical test none s bits h c = c
flip_at-IsCanonical test (some p) s bits h c =
    ground (arith, sym_diff-IsCanonical bits (from_square s) c (from_square-IsCanonical s h))

member-flip_at :
    (test : Piece → Bool) (o : Option Piece) (s i : Square) (bits : Bitboard)
    → member (flip_at test o s bits) i ≡ (member bits i + (if s == i then weight test o else 0)) % 2
member-flip_at test none s i bits = ground (arith, member-lt bits i)
member-flip_at test (some p) s i bits =
    ground (arith, member-lt bits i, member-sym_diff bits (from_square s) i, member-from_square s i)

-- Replacing a square's content, with the old and the new one flipped, keeps a set exact.
pub put-Tracks :
    (squares : List (Option Piece)) (test : Piece → Bool) (bits : Bitboard) (s : Square)
    (new : Option Piece)
    → length squares ≡ square_count
    → IsSquare s
    → Tracks squares test bits
    → Tracks
        (set squares s new)
        test
        (flip_at test new s (flip_at test (get_or squares s none) s bits))
put-Tracks squares test bits s new size h t = record {
  canonical =
      flip_at-IsCanonical test new s _ h
        (flip_at-IsCanonical test (get_or squares s none) s bits h t.canonical);
  exact = λ i p. ground (
    arith,
    t.exact i p,
    member-flip_at test new s i (flip_at test (get_or squares s none) s bits),
    member-flip_at test (get_or squares s none) s i bits,
    get_or-set_self squares s new none,
    get_or-set_ne squares s i new none,
    weight-lt test (get_or squares s none),
    weight-lt test new,
  );
}

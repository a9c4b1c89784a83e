-- ===== src/State/PackedSfen/Kings.antt =====
-- What the scan of `king_square` finds, crates/attic-state/src/packed_sfen.rs.
use attic_shogi.Prelude.{
  ℕ, suc, zero, ◌+◌, ◌≤◌, ◌<◌, ◌≡◌, inl, inr, refl, true, false, Bool-cases, ℕ_discrete, arith,
}
use attic_shogi.State.Piece.{Color}
use attic_shogi.State.Square.{Square, IsSquare, square_count}
use attic_shogi.State.Board.{Board, get}
use attic_shogi.State.PackedSfen.{is_king_of, king_from, king_square}

-- A king on one of `left` squares from `sq` on, and none before it, or none at all.
data Scan (left : ℕ) (sq : Square) (b : Board) (c : Color) (found : ℕ) : Type 0 where
  here : sq ≤ found → found < sq + left → is_king_of c (get b found) ≡ true → Scan left sq b c found
  nowhere :
      found ≡ square_count
      → ((s : Square) → sq ≤ s → s < sq + left → is_king_of c (get b s) ≡ false)
      → Scan left sq b c found

later :
    (left : ℕ) (sq : Square) (b : Board) (c : Color) {found : ℕ}
    → is_king_of c (get b sq) ≡ false
    → Scan left (suc sq) b c found
    → Scan (suc left) sq b c found
later left sq b c e (here p q k) = here (omega arith) (omega arith) k
later left sq b c e (nowhere p all) = nowhere p λ s h1 h2. elim (ℕ_discrete s sq) [
  | yes same ↦ rw same e
  | no other ↦ all s (omega arith) (omega arith)
]

king_from-Scan :
    (left : ℕ) (sq : Square) (b : Board) (c : Color) → Scan left sq b c (king_from left sq b c)
unfolding king_from
king_from-Scan zero sq b c = nowhere refl (λ s h1 h2. absurd (omega arith))
king_from-Scan (suc left) sq b c = elim (Bool-cases (is_king_of c (get b sq))) [
  | inl found ↦ rw (king_from, found) (here (omega arith) (omega arith) found)
  | inr other ↦ rw (king_from, other) (later left sq b c other (king_from-Scan left (suc sq) b c))
]

-- At most one king of a colour stands on the board.
abbrev pub HasOneKing : Board → Color → Type 0
HasOneKing b c =
    (s t : Square)
    → IsSquare s
    → IsSquare t
    → is_king_of c (get b s) ≡ true
    → is_king_of c (get b t) ≡ true
    → s ≡ t

module _ (b : Board) (c : Color) where
  pub king_square-le : king_square b c ≤ square_count
  unfolding king_square
  king_square-le = elim (king_from-Scan square_count 0 b c) [
    | here p q k ↦ omega arith
    | nowhere p all ↦ omega arith
  ]

  -- A square below 81 that the scan gives holds the king.
  pub king_square-holds : IsSquare (king_square b c) → is_king_of c (get b (king_square b c)) ≡ true
  unfolding king_square
  king_square-holds h = elim (king_from-Scan square_count 0 b c) [
    | here p q k ↦ k
    | nowhere p all ↦ absurd (omega arith)
  ]

  -- The only king stands on the square that the scan gives.
  pub king_square_only :
      (s : Square)
      → HasOneKing b c
      → IsSquare s
      → is_king_of c (get b s) ≡ true
      → king_square b c ≡ s
  unfolding king_square
  king_square_only s one h k = elim (king_from-Scan square_count 0 b c) [
    | here p q k' ↦ one _ s (omega arith) h k' k
    | nowhere p all ↦ let off = all s (omega arith) (omega arith) in absurd (cc)
  ]

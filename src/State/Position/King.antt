-- ===== src/State/Position/King.antt =====
-- Where a king stands: `try_find_king` of crates/attic-state/src/movegen.rs, `king_square` of
-- position.rs, which calls it, and `try_find_king_scan`, the oracle of the source's tests.
use attic_shogi.Prelude.{
  ℕ, zero, suc, ◌+◌, ◌≡◌, ◌∙◌, ap, refl, ◌==◌, ◌&&◌, if◌then◌else◌, Bool, true, false, Bool-cases,
  inl, inr, List, [], ◌∷◌, Option, Option-cases, none, some, arith,
}
use mathlib.Core.Option.{none-ne-some, some-injective}
use attic_shogi.State.Piece.{Color, PieceKind, king, Piece, same_color}
use attic_shogi.State.Square.{Square, square_count}
use attic_shogi.State.Bitboard.{Bitboard}
use attic_shogi.State.Bitboard.Iter.{BitboardIter, squares, Next, panic, done, item, next, collect}
use attic_shogi.State.Bitboard.Squares.{members_from, members, collect-members}
use attic_shogi.State.Board.{Board, pattern_of, get, pieces_pattern}
use attic_shogi.State.Board.Sets.{Tracks, weight}
use attic_shogi.State.Board.Laws.{IsBoard, of_pattern}
use attic_shogi.State.Position.Types.{Position}
use attic_shogi.State.Position.Valid.{IsPosition}

-- `pat::KING`.
abbrev pub king_pattern : ℕ
king_pattern = 9

-- The first square of a loop, if any; none where the step panics.
unfoldable pub first_square : BitboardIter → Option (Option Square)
unfolding next
first_square it = elim (next it) [ panic ↦ none | done ↦ some none | item s it' ↦ some (some s) ]

-- none where it panics.
unfoldable pub try_find_king : Board → Color → Option (Option Square)
unfolding pieces_pattern first_square
try_find_king b c = first_square (squares (pieces_pattern b c king_pattern))

unfoldable pub king_square : {Info : Type 0} → Position Info → Color → Option (Option Square)
unfolding try_find_king
king_square pos c = try_find_king pos.board c

abbrev is_king : PieceKind → Bool
is_king king = true
is_king _ = false

abbrev holds_king : Color → Option Piece → Bool
holds_king c none = false
holds_king c (some p) = same_color p.color c && is_king p.kind

unfoldable pub scan_from : (left : ℕ) → Square → Board → Color → Option Square
unfolding get
scan_from zero s b c = none
scan_from (suc left) s b c =
    let rest = scan_from left (suc s) b c in if holds_king c (get b s) then some s else rest

unfoldable pub try_find_king_scan : Board → Color → Option Square
unfolding scan_from
try_find_king_scan b c = scan_from square_count 0 b c

-- The first of a list.
abbrev first : List Square → Option Square
first [] = none
first (s ∷ ss) = some s

first_square-step :
    (n : ℕ) (it : BitboardIter) (ss : List Square) (x : Next)
    → next it ≡ x
    → collect (suc n) it ≡ some ss
    → first_square it ≡ some (first ss)
unfolding collect first_square
first_square-step n it ss panic e c = absurd (none-ne-some _ (rw (collect, e) at c))
first_square-step n it ss done e c =
    rw (first_square, e) (ap (λ r. some (first r)) (some-injective _ _ (rw (collect, e) at c)))
first_square-step n it ss (item s it') e c = elim (Option-cases (collect n it')) [
  | inl none_left ↦ absurd (none-ne-some _ (rw (collect, e, none_left) at c))
  | inr (rest, left) ↦
      rw (first_square, e)
        (ap (λ r. some (first r)) (some-injective _ _ (rw (collect, e, left) at c)))
]

first_square-collect :
    (n : ℕ) (it : BitboardIter) (ss : List Square)
    → collect (suc n) it ≡ some ss
    → first_square it ≡ some (first ss)
first_square-collect n it ss = first_square-step n it ss (next it) refl

king-pattern : (p : Piece) → (pattern_of p == king_pattern) ≡ is_king p.kind
unfolding pattern_of
king-pattern p = ground arith

weight-king :
    (c : Color) (o : Option Piece)
    → weight (of_pattern c king_pattern) o ≡ (if holds_king c o then 1 else 0)
weight-king c none = refl
weight-king c (some p) = rw (king-pattern p) refl

first-members :
    (b : Board) (c : Color) (bits : Bitboard)
    → Tracks b.squares (of_pattern c king_pattern) bits
    → (n k : ℕ) → n + k ≡ 81
    → first (members_from n k bits) ≡ scan_from n k b c
unfolding members_from scan_from get
first-members b c bits t zero k e = refl
first-members b c bits t (suc n) k e =
    let here = t.exact k (omega arith) ∙ weight-king c (get b k) in
    let rest = first-members b c bits t n (suc k) (omega arith) in
    elim (Bool-cases (holds_king c (get b k))) [
      | inl on ↦ rw (members_from, scan_from, here, on) refl
      | inr off ↦ rw (members_from, scan_from, here, off) rest
    ]

try_find_king-scan :
    (b : Board) (c : Color) → IsBoard b → try_find_king b c ≡ some (try_find_king_scan b c)
unfolding try_find_king try_find_king_scan
try_find_king-scan b c v =
    let t = v.by_pattern c king_pattern (omega arith) in
    let bits = pieces_pattern b c king_pattern in
    first_square-collect 81 (squares bits) (members bits) (collect-members bits t.canonical).0
    ∙ ap some (first-members b c bits t 81 0 refl)

-- In a valid position, `king_square` gives without a panic what the scan of all squares gives: the
-- first square with a king of the colour, or none where there is no such king.
pub king_square-scan :
    {Info : Type 0} (pos : Position Info) (c : Color)
    → IsPosition pos
    → king_square pos c ≡ some (try_find_king_scan pos.board c)
unfolding king_square
king_square-scan pos c v = try_find_king-scan pos.board c v.board

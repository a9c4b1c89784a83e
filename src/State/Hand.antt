-- ===== src/State/Hand.antt =====
-- Pieces in hand, crates/attic-state/src/hand.rs: seven saturating counters.
pub mod Laws
use attic_shogi.Prelude.{
  ℕ, ◌+◌, ◌-◌, List, [], ◌∷◌, Option, none, some, ltb, if◌then◌else◌, get_or, set, replicate,
}
use attic_shogi.State.Piece.{PieceKind, pawn, lance, knight, silver, gold, bishop, rook, king}

abbrev pub hand_kinds : ℕ
hand_kinds = 7

-- `MAX_BY_KIND`.
abbrev pub max_by_kind : List ℕ
max_by_kind = 18 ∷ 4 ∷ 4 ∷ 4 ∷ 4 ∷ 2 ∷ 2 ∷ []

-- `Hand([u8; HAND_KINDS])`.
abbrev pub Hand : Type 0
Hand = List ℕ

abbrev pub empty : Hand
empty = replicate hand_kinds 0

abbrev pub slot : PieceKind → Option ℕ
slot pawn = some 0
slot lance = some 1
slot knight = some 2
slot silver = some 3
slot gold = some 4
slot bishop = some 5
slot rook = some 6
slot king = none

unfoldable pub count : Hand → PieceKind → ℕ
count h k = elim (slot k) [ some i ↦ get_or h i 0 | none ↦ 0 ]

unfoldable pub increment : Hand → PieceKind → Hand
increment h k = elim (slot k) [
  | some i ↦ if ltb (get_or h i 0) (get_or max_by_kind i 0) then set h i (get_or h i 0 + 1) else h
  | none ↦ h
]

unfoldable pub decrement : Hand → PieceKind → Hand
decrement h k = elim (slot k) [
  | some i ↦ if ltb 0 (get_or h i 0) then set h i (get_or h i 0 - 1) else h
  | none ↦ h
]

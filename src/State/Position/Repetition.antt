-- ===== src/State/Position/Repetition.antt =====
-- The repetition queries of position.rs, in the quick-draw build. The states stand newest first, so
-- that the state `dist` plies back is at index `dist` of the history.
pub mod Nearest
use attic_shogi.Prelude.{
  ℕ, zero, suc, ◌+◌, min, Bool, true, false, ◌&&◌, ◌==◌, leb, ltb, if◌then◌else◌, List, [], ◌∷◌,
  Option, none, some, length, get_elem?,
}
use attic_shogi.State.Piece.{Color, PieceKind, PerColor, at, flip, same_color}
use attic_shogi.State.Hand.{Hand, count}
use attic_shogi.State.Position.Types.{StateInfo, Position}
use attic_shogi.State.Position.Hash.{held_kinds}

abbrev pub max_repetition_ply : ℕ
max_repetition_ply = 16

-- `RepetitionState`; `nothing` is its `None`.
pub data RepetitionState : Type 0 where
  nothing win lose draw superior inferior : RepetitionState

abbrev pub all_at_least : Hand → Hand → List PieceKind → Bool
all_at_least h g [] = true
all_at_least h g (k ∷ ks) = leb (count g k) (count h k) && all_at_least h g ks

unfoldable pub hand_is_equal_or_superior : (superior inferior : Hand) → Bool
hand_is_equal_or_superior h g = all_at_least h g held_kinds

-- `==` on `[u8; HAND_KINDS]`.
abbrev pub same_hand : Hand → Hand → Bool
same_hand [] [] = true
same_hand [] (y ∷ ys) = false
same_hand (x ∷ xs) [] = false
same_hand (x ∷ xs) (y ∷ ys) = x == y && same_hand xs ys

abbrev pub same_hands : PerColor Hand → PerColor Hand → Bool
same_hands a b = same_hand a.of_black b.of_black && same_hand a.of_white b.of_white

abbrev pub or_else : Option RepetitionState → RepetitionState → RepetitionState
or_else none rest = rest
or_else (some r) rest = r

module _ {Info : Type 0} where
  unfoldable pub matches_current_state : Position Info → StateInfo → Bool
  matches_current_state pos s =
      s.board_key == pos.board_key
      && same_hands s.hands pos.hands
      && same_color s.side_to_move pos.side_to_move

  abbrev pub count_matches : Position Info → List StateInfo → ℕ
  count_matches pos [] = 0
  count_matches pos (s ∷ ss) =
      let rest = count_matches pos ss in if matches_current_state pos s then suc rest else rest

  unfoldable pub position_occurrences : Position Info → ℕ
  position_occurrences pos = count_matches pos pos.history

  unfoldable pub state_back : Position Info → (dist : ℕ) → Option StateInfo
  state_back pos dist = if length pos.history == dist then pos.root else get_elem? pos.history dist

  unfoldable pub current_plies_from_null : Position Info → ℕ
  current_plies_from_null pos = elim pos.history [ [] ↦ 0 | s ∷ ss ↦ s.plies_from_null ]

  unfoldable pub current_continuous_check : Position Info → Color → ℕ
  current_continuous_check pos c = elim pos.history [ [] ↦ 0 | s ∷ ss ↦ at s.continuous_check c ]

  -- The body of the loop on a state `i` plies back with the board key; `none` goes on.
  unfoldable pub classify : Position Info → (i : ℕ) → StateInfo → Option RepetitionState
  unfolding current_continuous_check hand_is_equal_or_superior
  classify pos i prev =
      let stm = pos.side_to_move in
      if same_hands prev.hands pos.hands
      then (if leb i (current_continuous_check pos stm)
          then some lose
          else if leb i (current_continuous_check pos (flip stm))
          then some win
          else some draw)
      else if hand_is_equal_or_superior (at pos.hands stm) (at prev.hands stm)
      then some superior
      else if hand_is_equal_or_superior (at prev.hands stm) (at pos.hands stm)
      then some inferior
      else none

  abbrev pub classify_matching : Position Info → (i : ℕ) → Option StateInfo → Option RepetitionState
  classify_matching pos i none = none
  classify_matching pos i (some prev) =
      if prev.board_key == pos.board_key then classify pos i prev else none

  unfoldable pub decide_at : Position Info → (i : ℕ) → Option RepetitionState
  unfolding state_back classify
  decide_at pos i = classify_matching pos i (state_back pos i)

  -- The loop, two plies at a time, on fuel.
  unfoldable pub walk_back : Position Info → (end fuel i : ℕ) → RepetitionState
  unfolding decide_at
  walk_back pos end zero i = nothing
  walk_back pos end (suc fuel) i =
      let rest = walk_back pos end fuel (i + 2) in
      if leb i end then or_else (decide_at pos i) rest else nothing

  -- The distances are 4, 6, … up to 16 at most: seven rounds.
  unfoldable pub is_repetition : Position Info → RepetitionState
  unfolding walk_back current_plies_from_null
  is_repetition pos =
      let end = min max_repetition_ply (current_plies_from_null pos) in
      if ltb end 4 then nothing else walk_back pos end 7 4

-- ===== src/State/Position/Types.antt =====
-- The records of position.rs, its view of the check cache, and the incremental partial keys.
use attic_shogi.Prelude.{
  ℕ, ◌+◌, ◌-◌, ◌%◌, bit_xor, Bool, true, false, not, ◌&&◌, List, [], ◌∷◌, Option, none, some,
  if◌then◌else◌, ◌≡◌, arith,
}
use attic_shogi.State.Piece.{Color, black, PieceKind, pawn, Piece, PerColor, at, set_at}
use attic_shogi.State.Square.{Square}
use attic_shogi.State.Hand.{Hand}
use attic_shogi.State.Hand
use attic_shogi.State.Board.{Board}
use attic_shogi.State.Board
use attic_shogi.State.Bitboard.{Bitboard}
use attic_shogi.State.Move.{Move}
use attic_shogi.State.Key
use attic_shogi.State.Key.{word, is_minor_piece, no_pawns_seed}

-- What position.rs calls of search_movegen.rs. `compute` is `compute_check_info_impl` on the board,
-- the side to move, the board key, and the injected check flag and checkers; `child_checkers` is
-- `differential_child_checkers` on the board after the move, the move, the mover and the parent.
pub record CheckOps (Info : Type 0) : Type 0 where
  pub empty_info : Info
  pub compute : Board → Color → ℕ → Option Bool → Option Bitboard → Info
  pub child_checkers : Board → Move → Color → Info → Bitboard
  pub gives_check : Info → Color → Move → Bool

-- `StateInfo`. `plies_from_null` never exceeds the number of moves played.
pub record StateInfo : Type 0 where
  pub hands : PerColor Hand
  pub side_to_move : Color
  pub gives_check : Bool
  pub board_key : ℕ
  pub plies_from_null : ℕ
  pub continuous_check : PerColor ℕ

pub record Position (Info : Type 0) : Type 0 where
  pub board : Board
  pub hands : PerColor Hand
  pub side_to_move : Color
  pub ply : ℕ
  pub history : List StateInfo
  pub root : Option StateInfo
  pub board_key : ℕ
  pub hand_key : ℕ
  pub pawn_key : ℕ
  pub minor_piece_key : ℕ
  pub non_pawn_key : PerColor ℕ
  pub check_info : Info
  pub check_info_stack : List Info

-- `Undo`: the captured piece.
abbrev pub Undo : Type 0
Undo = Option Piece

-- `wrapping_add` and `wrapping_sub` on `u64`.
abbrev pub add64 : ℕ → ℕ → ℕ
add64 a b = (a + b) % word

abbrev pub sub64 : ℕ → ℕ → ℕ
sub64 a b = (a + word - b) % word

-- The three parts of `xor_piece_partial`, one for each partial key.
abbrev pub is_pawn : PieceKind → Bool
is_pawn pawn = true
is_pawn _ = false

abbrev pub is_board_pawn : Piece → Bool
is_board_pawn p = is_pawn p.kind && not p.promoted

unfoldable pub xor_pawn : Piece → Square → ℕ → ℕ
xor_pawn p s key = if is_board_pawn p then bit_xor key (Key.psq p s) else key

unfoldable pub xor_minor : Piece → Square → ℕ → ℕ
xor_minor p s key =
    if is_board_pawn p then key else if is_minor_piece p then bit_xor key (Key.psq p s) else key

unfoldable pub xor_non_pawn : Piece → Square → PerColor ℕ → PerColor ℕ
xor_non_pawn p s keys =
    if is_board_pawn p then keys else set_at keys p.color (bit_xor (at keys p.color) (Key.psq p s))

module _ {Info : Type 0} where
  unfoldable pub xor_piece_partial : Piece → Square → Position Info → Position Info
  unfolding xor_pawn xor_minor xor_non_pawn
  xor_piece_partial p s pos = record pos {
    pawn_key = xor_pawn p s pos.pawn_key;
    minor_piece_key = xor_minor p s pos.minor_piece_key;
    non_pawn_key = xor_non_pawn p s pos.non_pawn_key;
  }

  -- `Position::empty`.
  unfoldable pub empty : CheckOps Info → Position Info
  empty ops = record {
    board = Board.empty;
    hands = record { of_black = Hand.empty; of_white = Hand.empty };
    side_to_move = black;
    ply = 1;
    history = [];
    root = none;
    board_key = 0;
    hand_key = 0;
    pawn_key = no_pawns_seed;
    minor_piece_key = 0;
    non_pawn_key = record { of_black = 0; of_white = 0 };
    check_info = ops.empty_info;
    check_info_stack = [];
  }

  unfoldable pub key : Position Info → ℕ
  key pos = bit_xor pos.board_key pos.hand_key

  -- `root_state`: the state before the first move of the line.
  unfoldable pub root_state : Position Info → StateInfo
  root_state pos = record {
    hands = pos.hands;
    side_to_move = pos.side_to_move;
    gives_check = false;
    board_key = pos.board_key;
    plies_from_null = 0;
    continuous_check = record { of_black = 0; of_white = 0 };
  }

  -- `if self.history.is_empty() { self.root = Some(self.root_state()) }`.
  unfoldable pub capture_root : Position Info → Position Info
  unfolding root_state
  capture_root pos = elim pos.history [
    | [] ↦ record pos { root = some (root_state pos) }
    | x ∷ xs ↦ pos
  ]

  -- The state that a move is played from: the last of the history, or the root.
  unfoldable pub prev_state : Position Info → Option StateInfo
  prev_state pos = elim pos.history [ [] ↦ pos.root | x ∷ xs ↦ some x ]

  -- The state that the next move is played from.
  unfoldable pub base_state : Position Info → StateInfo
  unfolding root_state
  base_state pos = elim pos.history [ [] ↦ root_state pos | x ∷ xs ↦ x ]

  -- Once the root is captured there always is a state to play from.
  pub prev_state-capture_root :
      (pos : Position Info) → prev_state (capture_root pos) ≡ some (base_state pos)
  unfolding prev_state capture_root base_state
  prev_state-capture_root pos = ground arith

  -- Capturing the root changes nothing else.
  pub capture_root_lem :
      (pos : Position Info) → capture_root pos ≡ record pos { root = (capture_root pos).root }
  unfolding capture_root
  capture_root_lem pos = ground arith

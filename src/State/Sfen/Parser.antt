-- ===== src/State/Sfen/Parser.antt =====
-- `parse_sfen` of crates/attic-state/src/sfen.rs, field by field. The file of the cursor, which goes
-- down to -1, is kept one up: `left` is `file + 1`, the squares left in the rank.
use attic_shogi.Prelude.{
  ℕ, zero, suc, ◌+◌, ◌-◌, ◌*◌, ◌%◌, ◌^◌, Bool, true, false, not, ◌&&◌, ◌||◌, ◌==◌, ltb, leb,
  if◌then◌else◌, Option, none, some, List, [], ◌∷◌,
}
use attic_shogi.Prelude.Result.{Result, ok, err, ◌>>=◌}
use attic_shogi.State.Piece.{Color, black, white, PieceKind, Piece, new, new_promoted}
use attic_shogi.State.Hand
use attic_shogi.State.Hand.{Hand, increment}
use attic_shogi.State.Square
use attic_shogi.State.Square.{Square, files, ranks}
use attic_shogi.State.Board
use attic_shogi.State.Board.{Board, put}
use attic_shogi.State.Key.{no_pawns_seed}
use attic_shogi.State.Position.Types.{CheckOps, Position}
use attic_shogi.State.Position.Hash.{refresh_keys}
use attic_shogi.State.Position.Setters.{board_mut, hand_mut, set_side_to_move, set_ply}
use attic_shogi.State.Sfen.Chars.{
  Text, startpos_sfen, unexpected_end, unexpected_promote_marker, board_cursor_overflow,
  board_cursor_incomplete, missing_hand_piece_after_count, invalid_ply, unexpected_trailing,
  non_promotable_promoted, invalid_side_to_move, invalid_hand_piece, Failure, sfen, panic, ok_or,
  is_ascii_digit, to_ascii_uppercase, parse_piece_char, is_hand_kind, parse_u16, split,
}

-- The variables of the loop of `parse_board`.
pub record Cursor (Info : Type 0) : Type 0 where
  pub pos : Position Info
  pub left : ℕ
  pub rank : ℕ
  pub promote : Bool

unfoldable pub piece_of : (ch : ℕ) → (promote : Bool) → PieceKind → Color → Result Failure Piece
piece_of ch promote kind color =
    if promote
    then ok_or (new_promoted kind color) (non_promotable_promoted (to_ascii_uppercase ch))
    else ok (new kind color)

-- `for _ in 0..n`.
unfoldable pub increments : (n : ℕ) → PieceKind → Hand → Hand
increments zero k h = h
increments (suc n) k h = increments n k (increment h k)

-- The variables of the loop of `parse_hands`; the count is a `u32`, which wraps around.
pub record Counting (Info : Type 0) : Type 0 where
  pub pos : Position Info
  pub count : ℕ
  pub count_started : Bool

unfoldable pub is_dash : Text → Bool
is_dash (c ∷ []) = c == b'-'
is_dash _ = false

module _ {Info : Type 0} where
  -- `Position::empty`.
  abbrev pub empty_position : CheckOps Info → Position Info
  empty_position ops = record {
    board = Board.empty;
    hands = record { of_black = Hand.empty; of_white = Hand.empty };
    side_to_move = black;
    ply = 1;
    history = [];
    root = none;
    board_key = 0;
    hand_key = 0;
    pawn_key = no_pawns_seed;
    minor_piece_key = 0;
    non_pawn_key = record { of_black = 0; of_white = 0 };
    check_info = ops.empty_info;
    check_info_stack = [];
  }

  -- The arm of `/`.
  unfoldable pub next_rank : Cursor Info → Result Failure (Cursor Info)
  next_rank k =
      if not (k.left == 0)
      then err (sfen board_cursor_incomplete)
      else if k.rank == ranks - 1
      then err (sfen board_cursor_overflow)
      else if k.promote
      then err (sfen unexpected_promote_marker)
      else ok (record k { left = files; rank = k.rank + 1 })

  -- The arm of a digit.
  unfoldable pub skip_files : (skip : ℕ) → Cursor Info → Result Failure (Cursor Info)
  skip_files skip k =
      if k.promote
      then err (sfen unexpected_promote_marker)
      else if ltb k.left skip
      then err (sfen board_cursor_overflow)
      else ok (record k { left = k.left - skip })

  -- `Square::new(file as u8, rank as u8).unwrap()`: a file of -1 is cast to 255.
  unfoldable pub square_here : Cursor Info → Result Failure Square
  unfolding Square.new
  square_here k = elim (Square.new ((k.left + 2 ^ 8 - 1) % 2 ^ 8) k.rank) [
    | some s ↦ ok s
    | none ↦ err panic
  ]

  -- The arm of a piece.
  unfoldable pub place_piece : CheckOps Info → (ch : ℕ) → Cursor Info → Result Failure (Cursor Info)
  unfolding parse_piece_char piece_of square_here board_mut
  place_piece ops ch k = do
    (kind, color) ← parse_piece_char ch
    if k.left == 0 || leb ranks k.rank then err (sfen board_cursor_overflow) else do
      piece ← piece_of ch k.promote kind color
      s ← square_here k
      ok (record {
        pos = board_mut ops (λ b. put b s (some piece)) k.pos;
        left = k.left - 1;
        rank = k.rank;
        promote = false;
      })

  unfoldable pub board_char : CheckOps Info → (ch : ℕ) → Cursor Info → Result Failure (Cursor Info)
  unfolding next_rank skip_files place_piece
  board_char ops ch k =
      if ch == b'/'
      then next_rank k
      else if ch == b'+'
      then (if k.promote
          then err (sfen unexpected_promote_marker)
          else ok (record k { promote = true }))
      else if leb b'1' ch && leb ch b'9'
      then skip_files (ch - b'0') k
      else place_piece ops ch k

  unfoldable pub board_chars : CheckOps Info → Text → Cursor Info → Result Failure (Cursor Info)
  unfolding board_char
  board_chars ops [] k = ok k
  board_chars ops (ch ∷ t) k = board_char ops ch k >>= board_chars ops t

  -- The tests after the loop.
  unfoldable pub end_of_board : Cursor Info → Result Failure (Position Info)
  end_of_board k =
      if k.promote
      then err (sfen unexpected_promote_marker)
      else if not (k.rank == ranks - 1) || not (k.left == 0)
      then err (sfen board_cursor_incomplete)
      else ok k.pos

  unfoldable pub parse_board : CheckOps Info → Text → Position Info → Result Failure (Position Info)
  unfolding board_chars end_of_board
  parse_board ops field pos = do
    k ← board_chars ops field (record { pos = pos; left = files; rank = 0; promote = false })
    end_of_board k

  unfoldable pub parse_side_to_move :
      CheckOps Info → Text → Position Info → Result Failure (Position Info)
  unfolding set_side_to_move
  parse_side_to_move ops [] pos = err (sfen unexpected_end)
  parse_side_to_move ops (token ∷ []) pos =
      if token == b'b'
      then ok (set_side_to_move ops black pos)
      else if token == b'w'
      then ok (set_side_to_move ops white pos)
      else err (sfen (invalid_side_to_move token))
  parse_side_to_move ops (token ∷ c ∷ t) pos = err (sfen (invalid_side_to_move token))

  unfoldable pub hand_char : (ch : ℕ) → Counting Info → Result Failure (Counting Info)
  unfolding parse_piece_char hand_mut increments
  hand_char ch k =
      if is_ascii_digit ch
      then ok (record k { count = (k.count * 10 + (ch - b'0')) % 2 ^ 32; count_started = true })
      else (do
        (kind, color) ← parse_piece_char ch
        if not (is_hand_kind kind)
            then err (sfen (invalid_hand_piece ch))
            else ok (record {
              pos = hand_mut color (increments (if k.count_started then k.count else 1) kind) k.pos;
              count = 0;
              count_started = false;
            }))

  unfoldable pub hand_chars : Text → Counting Info → Result Failure (Counting Info)
  unfolding hand_char
  hand_chars [] k = ok k
  hand_chars (ch ∷ t) k = hand_char ch k >>= hand_chars t

  unfoldable pub end_of_hands : Counting Info → Result Failure (Position Info)
  end_of_hands k = if k.count_started then err (sfen missing_hand_piece_after_count) else ok k.pos

  unfoldable pub parse_hands : Text → Position Info → Result Failure (Position Info)
  unfolding hand_chars end_of_hands is_dash
  parse_hands [] pos = err (sfen unexpected_end)
  parse_hands (c ∷ t) pos =
      if is_dash (c ∷ t)
      then ok pos
      else hand_chars (c ∷ t) (record { pos = pos; count = 0; count_started = false })
        >>= end_of_hands

  unfoldable pub parse_ply : Text → Position Info → Result Failure (Position Info)
  unfolding parse_u16 set_ply
  parse_ply field pos = do n ← ok_or (parse_u16 field) invalid_ply; ok (set_ply n pos)

  -- `parse_sfen` on the fields; `split` gives one at least.
  unfoldable pub parse_fields : CheckOps Info → List Text → Result Failure (Position Info)
  unfolding parse_board parse_side_to_move parse_hands parse_ply refresh_keys
  parse_fields ops (board ∷ stm ∷ hand ∷ ply ∷ []) = do
    pos ← parse_board ops board (empty_position ops)
    turned ← parse_side_to_move ops stm pos
    held ← parse_hands hand turned
    played ← parse_ply ply held
    ok (refresh_keys ops played)
  parse_fields ops (board ∷ stm ∷ hand ∷ ply ∷ more ∷ fields) = err (sfen unexpected_trailing)
  parse_fields ops _ = err (sfen unexpected_end)

  unfoldable pub parse_sfen : CheckOps Info → Text → Result Failure (Position Info)
  unfolding parse_fields split
  parse_sfen ops s = parse_fields ops (split b' ' s)

  -- `Position::startpos`; `none` is the panic of its `expect`.
  unfoldable pub startpos : CheckOps Info → Option (Position Info)
  unfolding parse_sfen
  startpos ops = elim (parse_sfen ops startpos_sfen) [ ok pos ↦ some pos | err e ↦ none ]

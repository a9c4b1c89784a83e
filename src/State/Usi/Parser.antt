-- ===== src/State/Usi/Parser.antt =====
-- `parse_usi_move` of crates/attic-state/src/move_.rs.
use attic_shogi.Prelude.{
  ℕ, ◌-◌, Bool, true, false, not, ◌&&◌, ◌==◌, leb, if◌then◌else◌, List, Option, none, some, length,
  get_or, get_elem?,
}
use attic_shogi.Prelude.Result.{Result, ok, err, ◌>>=◌}
use attic_shogi.State.Piece.{PieceKind, pawn, lance, knight, silver, gold, bishop, rook, Piece}
use attic_shogi.State.Square
use attic_shogi.State.Square.{Square}
use attic_shogi.State.Board.{get}
use attic_shogi.State.Move.{Move, make, make_promote, make_drop}
use attic_shogi.State.Position.Types.{Position}

abbrev pub Text : Type 0
Text = List ℕ

-- `UsiMoveParseError`.
pub data ParseError : Type 0 where
  empty : ParseError
  invalid_length : ℕ → ParseError
  invalid_file : ℕ → ParseError
  invalid_rank : ℕ → ParseError
  invalid_drop_piece : ℕ → ParseError
  invalid_promotion_marker : ℕ → ParseError
  empty_from_square : ParseError
  promote_already_promoted : ParseError

-- `ok_or`.
abbrev pub ok_or {ℓ κ} : {E : Type ℓ} {A : Type κ} → Option A → E → Result E A
ok_or none e = err e
ok_or (some a) e = ok a

unfoldable pub parse_square : (file_byte rank_byte : ℕ) → Result ParseError Square
parse_square file_byte rank_byte =
    if not (leb b'1' file_byte && leb file_byte b'9')
    then err (invalid_file file_byte)
    else if not (leb b'a' rank_byte && leb rank_byte b'i')
    then err (invalid_rank rank_byte)
    else ok_or (Square.new (file_byte - b'1') (rank_byte - b'a')) (invalid_file file_byte)

unfoldable pub parse_drop_piece : ℕ → Result ParseError PieceKind
parse_drop_piece byte =
    if byte == b'P'
    then ok pawn
    else if byte == b'L'
    then ok lance
    else if byte == b'N'
    then ok knight
    else if byte == b'S'
    then ok silver
    else if byte == b'G'
    then ok gold
    else if byte == b'B'
    then ok bishop
    else if byte == b'R'
    then ok rook
    else err (invalid_drop_piece byte)

-- The match on `bytes.get(4)`.
abbrev pub parse_marker : Option ℕ → Result ParseError Bool
parse_marker none = ok false
parse_marker (some c) = if c == b'+' then ok true else err (invalid_promotion_marker c)

-- The last step, on the piece that stands on the origin.
abbrev pub encode : (src dst : Square) → Bool → Piece → Result ParseError Move
encode src dst promote p =
    if promote
    then (if p.promoted then err promote_already_promoted else ok (make_promote src dst p))
    else ok (make src dst p)

module _ {Info : Type 0} where
  -- A board move of a text of four or five bytes.
  unfoldable pub parse_board_move : Text → Position Info → Result ParseError Move
  unfolding parse_square
  parse_board_move s pos = do
    src ← parse_square (get_or s 0 0) (get_or s 1 0)
    dst ← parse_square (get_or s 2 0) (get_or s 3 0)
    promote ← parse_marker (get_elem? s 4)
    piece ← ok_or (get pos.board src) empty_from_square
    encode src dst promote piece

  unfoldable pub parse_drop : Text → Position Info → Result ParseError Move
  unfolding parse_square parse_drop_piece
  parse_drop s pos = do
    kind ← parse_drop_piece (get_or s 0 0)
    dst ← parse_square (get_or s 2 0) (get_or s 3 0)
    ok (make_drop kind pos.side_to_move dst)

  unfoldable pub parse_usi_move : Text → Position Info → Result ParseError Move
  unfolding parse_board_move parse_drop
  parse_usi_move s pos =
      if length s == 0
      then err empty
      else if length s == 4 && get_or s 1 0 == b'*'
      then parse_drop s pos
      else if not (length s == 4) && not (length s == 5)
      then err (invalid_length (length s))
      else parse_board_move s pos

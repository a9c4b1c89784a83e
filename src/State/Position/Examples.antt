-- ===== src/State/Position/Examples.antt =====
-- A small position, with moves that are played and taken back in it.
use attic_shogi.Prelude.{min, ◌∷◌, ℕ, ◌<◌, ◌≡◌, refl, sym, ◌∙◌, arith, true, false, [], none, some}
use attic_shogi.State.Piece.{
  Color, black, white, flip, pawn, gold, rook, king, Piece, new, PerColor, at,
}
use attic_shogi.State.Hand
use attic_shogi.State.Hand.{Hand, increment, count, decrement}
use attic_shogi.State.Hand.Laws.{IsHand, cap, empty-IsHand, increment-IsHand}
use attic_shogi.State.Bitboard
use attic_shogi.State.Board
use attic_shogi.State.Board.{Board, put, get}
use attic_shogi.State.Board.Laws.{IsBoard, put-IsBoard, get-put_self, get-put_ne}
use attic_shogi.State.Board.Unique.{empty-IsBoard}
use attic_shogi.State.Move.{Move, make, make_drop}
use attic_shogi.State.Move.Decode.{Reads, make-Reads, ReadsDrop, make_drop-Reads}
use attic_shogi.State.Square
use attic_shogi.State.Usi.Parser.{
  Text, invalid_length, invalid_promotion_marker, parse_usi_move, parse_board_move, parse_square,
}
use attic_shogi.State.Usi.RoundTrip.{Prints, plain, parse-format}
use attic_shogi.Prelude.Result.{err}
use attic_shogi.State.Position.Types.{CheckOps, StateInfo, Position, Undo, capture_root}
use attic_shogi.State.Position.Moves.{do_move_with_check, undo_move, piece_before_move}
use attic_shogi.State.Position.Null.{do_null_move, undo_null_move, undo-do_null_move}
use attic_shogi.State.Position.Hash.{
  recomputed_board_key, recomputed_hand_key, recomputed_pawn_key, recomputed_minor_key,
  recomputed_non_pawn_key, IsExact,
}
use attic_shogi.State.Position.HandSum.{recomputed_hand_key-lt}
use attic_shogi.State.Position.Valid.{IsPosition, Playable, drop, board}
use attic_shogi.State.Position.Undo.{undo_move-do_move}
use attic_shogi.State.Position.Repetition.{
  draw, max_repetition_ply, current_plies_from_null, is_repetition,
}
use attic_shogi.State.Position.Repetition.Nearest.{Nearest, is_repetition-Nearest}
use attic_shogi.State.Position.Exact.{do_move-IsExact}
use attic_shogi.State.Position.King.{king_square, try_find_king_scan, king_square-scan}

-- A check cache that counts the pieces of no one.
abbrev no_checks : CheckOps ℕ
no_checks = record {
  empty_info = 0;
  compute = λ b c key check checkers. 1;
  child_checkers = λ b m c info. Bitboard.empty;
  gives_check = λ info c m. false;
}

abbrev black_rook : Piece
black_rook = new rook black

abbrev white_pawn : Piece
white_pawn = new pawn white

-- A black rook on square 10 and a white pawn on square 12.
abbrev rook_board : Board
rook_board = put Board.empty 10 (some black_rook)

abbrev two_board : Board
two_board = put rook_board 12 (some white_pawn)

-- Black holds a gold.
abbrev gold_hand : Hand
gold_hand = increment Hand.empty gold

abbrev two_hands : PerColor Hand
two_hands = record { of_black = gold_hand; of_white = Hand.empty }

abbrev start : Position ℕ
start = record {
  board = two_board;
  hands = two_hands;
  side_to_move = black;
  ply = 65535;
  history = [];
  root = none;
  board_key = recomputed_board_key two_board black;
  hand_key = recomputed_hand_key two_hands;
  pawn_key = recomputed_pawn_key two_board;
  minor_piece_key = recomputed_minor_key two_board;
  non_pawn_key = recomputed_non_pawn_key two_board;
  check_info = 0;
  check_info_stack = [];
}

gold_hand-IsHand : IsHand gold_hand
gold_hand-IsHand = increment-IsHand Hand.empty gold empty-IsHand

rook_board-IsBoard : IsBoard rook_board
rook_board-IsBoard = put-IsBoard Board.empty 10 (some black_rook) (omega arith) empty-IsBoard

start-IsPosition : IsPosition start
start-IsPosition = record {
  board = put-IsBoard rook_board 12 (some white_pawn) (omega arith) rook_board-IsBoard;
  hands = two_hands-IsHand;
  ply = omega arith;
  hand_key = recomputed_hand_key-lt two_hands;
}
  where
    two_hands-IsHand : (c : Color) → IsHand (at two_hands c)
    two_hands-IsHand black = gold_hand-IsHand
    two_hands-IsHand white = empty-IsHand

start-IsExact : IsExact start
start-IsExact = record {
  board_key = refl;
  hand_key = refl;
  pawn_key = refl;
  minor_piece_key = refl;
  non_pawn_key = refl;
}

abbrev capture : Move
capture = make 10 12 black_rook

abbrev gold_drop : Move
gold_drop = make_drop gold black 40

capture-Playable : Playable start capture
capture-Playable = board 10 12 black_rook (record {
  board_move = reads.drop;
  origin = reads.origin;
  target = reads.target;
  piece = reads.piece;
  src_square = omega arith;
  dst_square = omega arith;
  apart = λ e. omega arith;
  mover = unfold piece_before_move in rw (reads.promote) origin_piece;
  room = room;
})
  where
    reads : Reads capture 10 12 black_rook false
    reads = make-Reads 10 12 black_rook (omega arith) (omega arith) (λ e. absurd (ground arith))

    origin_piece : get two_board 10 ≡ some black_rook
    origin_piece =
        get-put_ne rook_board 12 10 (some white_pawn) (λ e. omega arith)
        ∙ get-put_self Board.empty 10 (some black_rook) (omega arith) empty-IsBoard

    room : (p : Piece) → get two_board 12 ≡ some p → count gold_hand p.kind < cap p.kind
    room p e =
        let target : some white_pawn ≡ some p =
          sym (get-put_self rook_board 12 (some white_pawn) (omega arith) rook_board-IsBoard) ∙ e in
        let kind : p.kind ≡ pawn = grind (arith, target) in
        rw kind (unfold count increment in omega arith)

gold_drop-Playable : Playable start gold_drop
gold_drop-Playable = drop gold 40 (record {
  drop = reads.drop;
  target = reads.target;
  kind = reads.kind;
  square = omega arith;
  vacant = unfold get put Board.empty in refl;
  held = unfold count increment in omega arith;
})
  where
    reads : ReadsDrop gold_drop gold black 40
    reads = make_drop-Reads gold black 40 (λ e. ground arith) (omega arith)

undo_move-do_move_example :
    (after : Position ℕ) × (u : Undo) × (do_move_with_check no_checks start capture true
      ≡ some (after, u))
    × (undo_move no_checks after capture u
        ≡ some (record start { root = (capture_root start).root }))
undo_move-do_move_example =
    undo_move-do_move no_checks start capture true start-IsPosition capture-Playable

do_move-IsExact_example :
    (after : Position ℕ) × (u : Undo) × (do_move_with_check no_checks start gold_drop false
      ≡ some (after, u))
    × IsPosition after
    × IsExact after
do_move-IsExact_example =
    do_move-IsExact no_checks start gold_drop false start-IsPosition start-IsExact
      gold_drop-Playable

undo-do_null_move_example :
    (after : Position ℕ) × (do_null_move no_checks start ≡ some after)
    × (undo_null_move no_checks after ≡ record start { root = after.root })
undo-do_null_move_example = undo-do_null_move no_checks start (omega arith)

-- A state with the pieces and the turn of `start`, `n` plies after the last null move.
abbrev same_state : ℕ → StateInfo
same_state n = record {
  hands = two_hands;
  side_to_move = black;
  gives_check = false;
  board_key = 7;
  plies_from_null = n;
  continuous_check = record { of_black = 0; of_white = 0 };
}

abbrev other_state : ℕ → StateInfo
other_state n = record (same_state n) { board_key = 8 }

-- The position of four plies ago, again.
abbrev shuffled : Position ℕ
shuffled = record start {
  board_key = 7;
  history =
      same_state 6
      ∷ other_state 5
      ∷ other_state 4
      ∷ other_state 3
      ∷ same_state 2
      ∷ other_state 1
      ∷ [];
}

shuffled_draw : is_repetition shuffled ≡ draw
unfolding is_repetition increment flip
shuffled_draw = refl

is_repetition-Nearest_example :
    Nearest shuffled 4
      (min max_repetition_ply (current_plies_from_null shuffled))
      (is_repetition shuffled)
is_repetition-Nearest_example = is_repetition-Nearest shuffled

-- The rook takes the pawn: 2b2d.
parse-format_example : Prints start capture
parse-format_example =
    parse-format start capture
      (plain 10 12 black_rook (omega arith) (omega arith) origin_piece refl)
  where
    origin_piece : get two_board 10 ≡ some black_rook
    origin_piece =
        get-put_ne rook_board 12 10 (some white_pawn) (λ e. omega arith)
        ∙ get-put_self Board.empty 10 (some black_rook) (omega arith) empty-IsBoard

-- A drop of the gold: G*5e.
abbrev gold_text : Text
gold_text = b'G' ∷ b'*' ∷ b'5' ∷ b'e' ∷ []

-- No text of six bytes is a move, and an empty square moves nothing.
long_text_test :
    (parse_usi_move (b'2' ∷ b'b' ∷ b'2' ∷ b'd' ∷ b'+' ∷ b'+' ∷ []) start ≡ err (invalid_length 6))
    × (parse_usi_move (b'2' ∷ b'b' ∷ b'2' ∷ b'd' ∷ b'=' ∷ []) start
        ≡ err (invalid_promotion_marker b'='))
long_text_test = (
  unfold parse_usi_move in refl,
  unfold parse_usi_move parse_board_move parse_square Square.new in refl,
)

-- The start with a white king on square 8.
abbrev crowned : Position ℕ
crowned = record start { board = put two_board 8 (some (new king white)) }

crowned-IsPosition : IsPosition crowned
crowned-IsPosition = record {
  board = put-IsBoard two_board 8 (some (new king white)) (omega arith) start-IsPosition.board;
  hands = start-IsPosition.hands;
  ply = start-IsPosition.ply;
  hand_key = start-IsPosition.hand_key;
}

white_king_stands : try_find_king_scan crowned.board white ≡ some 8
unfolding try_find_king_scan put Board.empty
white_king_stands = refl

no_black_king : try_find_king_scan crowned.board black ≡ none
unfolding try_find_king_scan put Board.empty
no_black_king = refl

king_square-scan_example : king_square crowned white ≡ some (try_find_king_scan crowned.board white)
king_square-scan_example = king_square-scan crowned white crowned-IsPosition

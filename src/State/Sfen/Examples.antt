-- ===== src/State/Sfen/Examples.antt =====
-- Tests of the SFEN parser and printer on small texts.
use attic_shogi.Prelude.{arith, ℕ, zero, suc, ◌≡◌, refl, [], ◌∷◌, ◌++◌, none, some, false}
use attic_shogi.Prelude.Result.{Result, ok, err}
use attic_shogi.State.Piece.{Color, white, gold, at, black, pawn, new}
use attic_shogi.State.Board
use attic_shogi.State.Board.{Board, put, get}
use attic_shogi.State.Board.Laws.{IsBoard, put-IsBoard}
use attic_shogi.State.Board.Unique.{empty-IsBoard}
use attic_shogi.State.Bitboard
use attic_shogi.State.Position.Types.{CheckOps, Position}
use attic_shogi.State.Sfen.Chars.{
  Text, sfen, board_cursor_incomplete, parse_u16, startpos_sfen, codes,
}
use attic_shogi.State.Sfen.Parser.{empty_position, parse_sfen, parse_board, parse_hands}
use attic_shogi.State.Sfen.Printer.{format_sfen}
use attic_shogi.State.Sfen.BoardRoundTrip.{HasPieces, empty-HasPieces, put-HasPieces}
use attic_shogi.State.Sfen.RoundTrip.{parse_sfen-format_sfen}
use attic_shogi.State.Hand
use attic_shogi.State.Hand.{increment}
use attic_shogi.State.Hand.Laws.{IsHand, empty-IsHand, increment-IsHand}
use attic_shogi.State.Position.Hash.{IsExact, refresh_keys}
use attic_shogi.State.Position.Setters.{refresh_keys-IsPosition}
use attic_shogi.State.Sfen.Outcome.{Outcome}
use attic_shogi.State.Sfen.Sound.{IsSound, parse_sfen-Outcome}

-- A check cache that counts the pieces of no one.
abbrev no_checks : CheckOps ℕ
no_checks = record {
  empty_info = 0;
  compute = λ b c key check checkers. 1;
  child_checkers = λ b m c info. Bitboard.empty;
  gives_check = λ info c m. false;
}

-- An empty board, white to move, two pawns in Black's hand: 9/9/9/9/9/9/9/9/9 w 2P 12.
abbrev nine_empty : ℕ → Text
nine_empty zero = b'9' ∷ []
nine_empty (suc n) = b'9' ∷ b'/' ∷ nine_empty n

abbrev two_pawns_text : Text
two_pawns_text = nine_empty 8 ++ (b' ' ∷ b'w' ∷ b' ' ∷ b'2' ∷ b'P' ∷ b' ' ∷ b'1' ∷ b'2' ∷ [])

parse_sfen-Outcome_example : Outcome IsSound (parse_sfen no_checks two_pawns_text)
parse_sfen-Outcome_example = parse_sfen-Outcome no_checks two_pawns_text

ply_test :
    (parse_u16 (b'+' ∷ b'7' ∷ []) ≡ some 7)
    × (parse_u16 (b'6' ∷ b'5' ∷ b'5' ∷ b'3' ∷ b'6' ∷ []) ≡ none)
unfolding parse_u16
ply_test = (refl, refl)

short_board_test :
    parse_board no_checks (b'9' ∷ b'/' ∷ b'9' ∷ []) (empty_position no_checks)
    ≡ err (sfen board_cursor_incomplete)
unfolding parse_board
short_board_test = refl

-- A count past 2 ^ 32 is no error: this one reads as a single pawn.
wrapped_count_test :
    parse_hands (codes "4294967297P") (empty_position no_checks)
    ≡ parse_hands (codes "P") (empty_position no_checks)
unfolding parse_hands
wrapped_count_test = refl

-- Parsed and printed again; 0 for an error.
abbrev printed_again : Text → Result ℕ Text
printed_again t = elim (parse_sfen no_checks t) [ ok p ↦ ok (format_sfen p) | err e ↦ err 0 ]

round_trip_test : printed_again two_pawns_text ≡ ok two_pawns_text
unfolding parse_sfen format_sfen attic_shogi.State.Board.empty attic_shogi.State.Hand.increment
round_trip_test = refl

startpos_test : printed_again startpos_sfen ≡ ok startpos_sfen
unfolding parse_sfen format_sfen attic_shogi.State.Board.empty attic_shogi.State.Hand.increment
    attic_shogi.State.Board.put
startpos_test = refl

-- An unpromoted pawn on square 40.
abbrev pawn_board : Board
pawn_board = put Board.empty 40 (some (new pawn black))

pawn_board-IsBoard : IsBoard pawn_board
pawn_board-IsBoard = put-IsBoard Board.empty 40 (some (new pawn black)) (omega arith) empty-IsBoard

pawn_board-HasPieces : HasPieces pawn_board
pawn_board-HasPieces =
    put-HasPieces Board.empty 40 (new pawn black) (omega arith) empty-IsBoard
      (λ e. absurd (ground arith)) empty-HasPieces

-- The pawn on the board, a gold in White's hand, White to move at the last ply.
abbrev set_up : Position ℕ
set_up = record (empty_position no_checks) {
  board = pawn_board;
  hands = record { of_black = Hand.empty; of_white = increment Hand.empty gold };
  side_to_move = white;
  ply = 65535;
}

set_up-hands : (c : Color) → IsHand (at set_up.hands c)
set_up-hands black = empty-IsHand
set_up-hands white = increment-IsHand Hand.empty gold empty-IsHand

abbrev late : Position ℕ
late = refresh_keys no_checks set_up

parse_sfen-format_sfen_example :
    (q : Position ℕ) × (parse_sfen no_checks (format_sfen late) ≡ ok q)
    × (q.board ≡ late.board)
    × (q.hands ≡ late.hands)
    × (q.side_to_move ≡ late.side_to_move)
    × (q.ply ≡ late.ply)
    × IsExact q
unfolding refresh_keys put
parse_sfen-format_sfen_example =
    parse_sfen-format_sfen no_checks late
      ((refresh_keys-IsPosition no_checks set_up pawn_board-IsBoard set_up-hands (omega arith)).0)
      pawn_board-HasPieces

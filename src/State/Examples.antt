-- ===== src/State/Examples.antt =====
-- The pieces, squares, sets and moves of a few concrete positions.
use attic_shogi.Prelude.{◌-◌, ◌*◌, ◌+◌, ◌^◌, min, ◌≡◌, refl, arith, true, false, some}
use attic_shogi.State.Piece.{black, white, pawn, silver, gold, rook, Piece, can_promote, new}
use attic_shogi.State.Hand
use attic_shogi.State.Hand.{Hand, increment, decrement, count}
use attic_shogi.State.Hand.Laws.{cap, empty-IsHand, count-increment_self}
use attic_shogi.State.Bitboard.{Bitboard, from_square, union}
use attic_shogi.State.Bitboard.Laws.{IsCanonical}
use attic_shogi.State.Board
use attic_shogi.State.Board.{Board, put}
use attic_shogi.State.Board.Laws.{IsBoard, put-IsBoard}
use attic_shogi.State.Board.Unique.{empty-IsBoard}
use attic_shogi.State.Move.{make, make_promote, make_drop, piece_to_ref_code}
use attic_shogi.State.Move.Decode.{
  Reads, ReadsDrop, make-Reads, make_promote-Reads, make_drop-Reads,
}
use attic_shogi.State.Key.{psq, side, no_pawns_seed, hand_step}
use attic_shogi.State.Key.Tables.{drawn}
use attic_shogi.State.Key.Drawn.{hand_place, psq-drawn, hand_step-drawn}

abbrev black_silver : Piece
black_silver = new silver black

abbrev white_dragon : Piece
white_dragon = record { kind = rook; color = white; promoted = true }

abbrev one_silver : Board
one_silver = put Board.empty 40 (some black_silver)

abbrev two_silvers : Board
two_silvers = put one_silver 80 (some black_silver)

one_silver-IsBoard : IsBoard one_silver
one_silver-IsBoard = put-IsBoard Board.empty 40 (some black_silver) (omega arith) empty-IsBoard

put-IsBoard_example : IsBoard two_silvers
put-IsBoard_example = put-IsBoard one_silver 80 (some black_silver) (omega arith) one_silver-IsBoard

make-Reads_example : Reads (make 40 41 black_silver) 40 41 black_silver false
make-Reads_example =
    make-Reads 40 41 black_silver (omega arith) (omega arith) (λ e. absurd (ground arith))

make_promote-Reads_example :
    Reads
      (make_promote 80 1 (new rook white))
      80
      1
      (record { kind = rook; color = white; promoted = true })
      true
make_promote-Reads_example =
    make_promote-Reads 80 1 rook white (omega arith) (omega arith) (unfold can_promote in refl)

make_drop-Reads_example : ReadsDrop (make_drop pawn white 13) pawn white 13
make_drop-Reads_example = make_drop-Reads pawn white 13 (λ e. ground arith) (omega arith)

-- Code 30 of the white dragon: draw 2 + 29 * 81 + 80.
psq-drawn_example :
    (psq white_dragon 80 ≡ drawn (2 + (piece_to_ref_code white_dragon - 1) * 81 + 80))
    × (side ≡ drawn 0)
    × (no_pawns_seed ≡ drawn 1)
psq-drawn_example = psq-drawn white_dragon 80 (λ e. unfold can_promote in refl) (omega arith)

hand_step-drawn_example : hand_step white gold ≡ drawn (2 + 31 * 81 + hand_place white gold)
hand_step-drawn_example = hand_step-drawn white gold (λ e. absurd (ground arith))

abbrev gold_hand : Hand
gold_hand = increment Hand.empty gold

count-increment_self_example :
    count (increment Hand.empty gold) gold ≡ min (count Hand.empty gold + 1) (cap gold)
count-increment_self_example = count-increment_self Hand.empty gold empty-IsHand

-- A set with a square on each lane.
abbrev two_lanes : Bitboard
two_lanes = record { p0 = 2 ^ 62; p1 = 1 }

two_lanes-IsCanonical : IsCanonical two_lanes
two_lanes-IsCanonical = record { lane0 = omega arith; lane1 = omega arith }

abbrev two_squares : Bitboard
two_squares = union (from_square 62) (from_square 63)

two_squares-IsCanonical : IsCanonical two_squares
two_squares-IsCanonical =
    unfold union from_square in record { lane0 = omega arith; lane1 = omega arith }

-- ===== src/State/Usi/Squares.antt =====
-- The two bytes of a square, and the letter of a kind.
use attic_shogi.Prelude.{ℕ, ◌≡◌, ◌≢◌, refl, some, arith}
use attic_shogi.Prelude.Result.{ok}
use attic_shogi.State.Piece.{PieceKind, pawn, lance, knight, silver, gold, bishop, rook, king}
use attic_shogi.State.Square
use attic_shogi.State.Square.{Square, IsSquare, file, rank}
use attic_shogi.State.Usi.Parser.{parse_square, parse_drop_piece}
use attic_shogi.State.Usi.Printer.{drop_letter, file_to_usi, rank_to_usi}

-- The bytes of a square read back as the square.
pub parse-square_to_usi :
    (s : Square) → IsSquare s → parse_square (file_to_usi (file s)) (rank_to_usi (rank s)) ≡ ok s
unfolding parse_square Square.new
parse-square_to_usi s h = ground arith

-- Two bytes that read as a square are its own.
pub parse_square-eq-ok :
    (f r : ℕ) (s : Square)
    → parse_square f r ≡ ok s
    → IsSquare s × (file_to_usi (file s) ≡ f) × (rank_to_usi (rank s) ≡ r)
unfolding parse_square Square.new
parse_square-eq-ok f r s h = ground arith

-- The letter of a kind in hand reads back as the kind, and only that letter does.
pub parse-drop_letter : (k : PieceKind) {c : ℕ} → drop_letter k ≡ some c → parse_drop_piece c ≡ ok k
unfolding parse_drop_piece drop_letter
parse-drop_letter k h = ground arith

pub drop_letter-parse : (c : ℕ) (k : PieceKind) → parse_drop_piece c ≡ ok k → drop_letter k ≡ some c
unfolding parse_drop_piece drop_letter
drop_letter-parse c k h = ground arith

pub drop_letter-some : (k : PieceKind) → k ≢ king → (c : ℕ) × (drop_letter k ≡ some c)
unfolding drop_letter
drop_letter-some pawn h = (b'P', refl)
drop_letter-some lance h = (b'L', refl)
drop_letter-some knight h = (b'N', refl)
drop_letter-some silver h = (b'S', refl)
drop_letter-some gold h = (b'G', refl)
drop_letter-some bishop h = (b'B', refl)
drop_letter-some rook h = (b'R', refl)
drop_letter-some king h = absurd (h refl)

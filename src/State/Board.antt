-- ===== src/State/Board.antt =====
-- The board of crates/attic-state/src/board.rs: 81 squares, and the sets of occupied squares by
-- colour and by attack pattern that every change keeps up to date.
pub mod Sets
pub mod Laws
pub mod Unique
use attic_shogi.Prelude.{ℕ, Bool, true, false, List, Option, none, some, get_or, set, replicate}
use attic_shogi.State.Piece.{
  Color, black, white, PieceKind, pawn, lance, knight, silver, gold, bishop, rook, king, Piece,
  PerColor, at, set_at,
}
use attic_shogi.State.Square.{Square, square_count}
use attic_shogi.State.Bitboard
use attic_shogi.State.Bitboard.{Bitboard, sym_diff, from_square}

abbrev pub pattern_count : ℕ
pattern_count = 10

-- `pattern_of` on the kind and the promotion, with the slots of `pat`.
abbrev pub pattern_slot : PieceKind → Bool → ℕ
pattern_slot pawn false = 0
pattern_slot lance false = 1
pattern_slot knight false = 2
pattern_slot silver false = 3
pattern_slot gold _ = 4
pattern_slot pawn true = 4
pattern_slot lance true = 4
pattern_slot knight true = 4
pattern_slot silver true = 4
pattern_slot bishop false = 5
pattern_slot rook false = 6
pattern_slot bishop true = 7
pattern_slot rook true = 8
pattern_slot king _ = 9

unfoldable pub pattern_of : Piece → ℕ
pattern_of p = pattern_slot p.kind p.promoted

pub record Board : Type 0 where
  pub squares : List (Option Piece)
  pub occupied : Bitboard
  pub by_color : PerColor Bitboard
  pub by_pattern : PerColor (List Bitboard)

-- `Board::empty`.
unfoldable pub empty : Board
empty = record {
  squares = replicate square_count none;
  occupied = Bitboard.empty;
  by_color = record { of_black = Bitboard.empty; of_white = Bitboard.empty };
  by_pattern = record {
    of_black = replicate pattern_count Bitboard.empty;
    of_white = replicate pattern_count Bitboard.empty;
  };
}

-- `Board::get`.
unfoldable pub get : Board → Square → Option Piece
get b s = get_or b.squares s none

unfoldable pub toggle_sets : Board → Piece → Square → Board
toggle_sets b p s =
    let bit = from_square s in
    let patterns = at b.by_pattern p.color in
    record b {
      occupied = sym_diff b.occupied bit;
      by_color = set_at b.by_color p.color (sym_diff (at b.by_color p.color) bit);
      by_pattern = set_at b.by_pattern p.color (
          set patterns (pattern_of p)
            (sym_diff (get_or patterns (pattern_of p) Bitboard.empty) bit));
    }

-- `if let Some(p) = piece { self.toggle_sets(p, sq) }`.
unfoldable pub toggle_if_some : Board → Option Piece → Square → Board
unfolding toggle_sets
toggle_if_some b none s = b
toggle_if_some b (some p) s = toggle_sets b p s

-- `Board::set`: the one way to change a square.
unfoldable pub put : Board → Square → Option Piece → Board
unfolding get toggle_if_some
put b s piece =
    let b' = toggle_if_some b (get b s) s in
    toggle_if_some (record b' { squares = set b'.squares s piece }) piece s

unfoldable pub pieces_color : Board → Color → Bitboard
pieces_color b c = at b.by_color c

unfoldable pub pieces_pattern : Board → Color → ℕ → Bitboard
pieces_pattern b c pattern = get_or (at b.by_pattern c) pattern Bitboard.empty

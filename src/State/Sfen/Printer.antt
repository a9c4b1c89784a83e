-- ===== src/State/Sfen/Printer.antt =====
-- `format_sfen` of crates/attic-state/src/sfen.rs. A `push` to the output is the text that it adds.
use attic_shogi.Prelude.{
  ℕ, zero, suc, ◌+◌, ◌*◌, ◌==◌, ltb, if◌then◌else◌, none, some, List, [], ◌∷◌, ◌++◌,
}
use attic_shogi.State.Piece.{
  Color, black, white, PieceKind, pawn, lance, knight, silver, gold, bishop, rook, Piece, PerColor,
  at,
}
use attic_shogi.State.Hand.{Hand, count}
use attic_shogi.State.Square.{ranks, files}
use attic_shogi.State.Board.{Board, get}
use attic_shogi.State.Position.Types.{Position}
use attic_shogi.State.Sfen.Chars.{Text, piece_char, to_string}

-- The count of empty squares, where there are any.
unfoldable pub flush : (empty : ℕ) → Text
flush empty = if ltb 0 empty then (b'0' + empty) ∷ [] else []

unfoldable pub format_piece : Piece → Text
unfolding piece_char
format_piece p = (if p.promoted then b'+' ∷ [] else []) ++ (piece_char p.kind p.color ∷ [])

-- The files below `n` of a rank, from the highest down, with the empty squares counted so far.
unfoldable pub format_files : Board → (rank : ℕ) → (n : ℕ) → (empty : ℕ) → Text
unfolding get flush format_piece
format_files b rank zero empty = flush empty
format_files b rank (suc file) empty = elim (get b (file * ranks + rank)) [
  | none ↦ format_files b rank file (empty + 1)
  | some p ↦ flush empty ++ (format_piece p ++ format_files b rank file 0)
]

-- The ranks from `rank` on, `n` of them.
unfoldable pub format_ranks : Board → (rank : ℕ) → (n : ℕ) → Text
unfolding format_files
format_ranks b rank zero = []
format_ranks b rank (suc n) =
    (if rank == 0 then [] else b'/' ∷ [])
    ++ (format_files b rank files 0 ++ format_ranks b (rank + 1) n)

unfoldable pub format_board : Board → Text
unfolding format_ranks
format_board b = format_ranks b 0 ranks

abbrev pub hand_output_order : List PieceKind
hand_output_order = rook ∷ bishop ∷ gold ∷ silver ∷ knight ∷ lance ∷ pawn ∷ []

unfoldable pub format_held : Hand → Color → List PieceKind → Text
unfolding count to_string piece_char
format_held h color [] = []
format_held h color (kind ∷ kinds) =
    let n = count h kind in
    let rest = format_held h color kinds in
    if n == 0 then rest else (if n == 1 then [] else to_string n) ++ (piece_char kind color ∷ rest)

abbrev pub or_dash : Text → Text
or_dash [] = b'-' ∷ []
or_dash (c ∷ t) = c ∷ t

unfoldable pub format_hands : PerColor Hand → Text
unfolding format_held
format_hands hands = or_dash (
    format_held (at hands black) black hand_output_order
    ++ format_held (at hands white) white hand_output_order)

unfoldable pub side_char : Color → ℕ
side_char black = b'b'
side_char white = b'w'

unfoldable pub format_sfen : {Info : Type 0} → Position Info → Text
unfolding format_board format_hands side_char to_string
format_sfen pos =
    format_board pos.board
    ++ (b' '
        ∷ side_char pos.side_to_move
        ∷ b' '
        ∷ (format_hands pos.hands ++ (b' ' ∷ to_string pos.ply)))

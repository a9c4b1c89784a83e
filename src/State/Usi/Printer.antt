-- ===== src/State/Usi/Printer.antt =====
-- `format_usi_move` of crates/attic-state/src/move_.rs.
use attic_shogi.Prelude.{ℕ, ◌+◌, if◌then◌else◌, [], ◌∷◌, ◌++◌, Option, none, some}
use attic_shogi.State.Piece.{PieceKind, pawn, lance, knight, silver, gold, bishop, rook, king}
use attic_shogi.State.Square.{Square, file, rank}
use attic_shogi.State.Move.{Move, is_drop, is_promote, to_sq, from_sq, dropped_piece_kind}
use attic_shogi.State.Position.Moves.{◌>>=◌}
use attic_shogi.State.Usi.Parser.{Text}

-- `none` is the panic on a king.
unfoldable pub drop_letter : PieceKind → Option ℕ
drop_letter pawn = some b'P'
drop_letter lance = some b'L'
drop_letter knight = some b'N'
drop_letter silver = some b'S'
drop_letter gold = some b'G'
drop_letter bishop = some b'B'
drop_letter rook = some b'R'
drop_letter king = none

abbrev pub file_to_usi : ℕ → ℕ
file_to_usi f = b'1' + f

abbrev pub rank_to_usi : ℕ → ℕ
rank_to_usi r = b'a' + r

abbrev pub square_to_usi : Square → Text
square_to_usi s = file_to_usi (file s) ∷ rank_to_usi (rank s) ∷ []

-- `format_usi_move`; `none` is a panic of a reader or of `drop_letter`.
unfoldable pub format_usi_move : Move → Option Text
unfolding drop_letter
format_usi_move m =
    if is_drop m
    then (do
      kind ← dropped_piece_kind m
      letter ← drop_letter kind
      dst ← to_sq m
      some (letter ∷ b'*' ∷ square_to_usi dst))
    else (do
      src ← from_sq m
      dst ← to_sq m
      some (square_to_usi src ++ (square_to_usi dst ++ (if is_promote m then b'+' ∷ [] else []))))

-- ===== src/State/Usi/RoundTrip.antt =====
-- What is printed of a move parses back.
use attic_shogi.Prelude.{
  ℕ, ◌≡◌, ◌≢◌, refl, Bool, true, false, [], ◌∷◌, ◌++◌, some, ◌==◌, arith, if◌then◌else◌,
}
use attic_shogi.Prelude.Result.{ok}
use attic_shogi.State.Piece.{Color, PieceKind, king, Piece}
use attic_shogi.State.Square.{Square, IsSquare, rank}
use attic_shogi.State.Board.{get}
use attic_shogi.State.Move.{Move, make, make_promote, make_drop}
use attic_shogi.State.Move.Path.{IsPath, make-IsPath, make_promote-IsPath}
use attic_shogi.State.Move.Decode.{ReadsDrop, make_drop-Reads}
use attic_shogi.State.Position.Types.{Position}
use attic_shogi.State.Usi.Parser.{Text, encode, parse_drop, parse_board_move, parse_usi_move}
use attic_shogi.State.Usi.Printer.{drop_letter, rank_to_usi, square_to_usi, format_usi_move}
use attic_shogi.State.Usi.Squares.{parse-square_to_usi, parse-drop_letter, drop_letter-some}

pub format-IsPath :
    (m : Move) (src dst : Square) (promotes : Bool)
    → IsPath m src dst promotes
    → format_usi_move m
      ≡ some (square_to_usi src ++ (square_to_usi dst ++ (if promotes then b'+' ∷ [] else [])))
unfolding format_usi_move
format-IsPath m src dst promotes v = rw (v.drop, v.origin, v.target, v.promote) refl

pub format-ReadsDrop :
    {m : Move} {k : PieceKind} {c : Color} {dst : Square} {letter : ℕ}
    → ReadsDrop m k c dst
    → drop_letter k ≡ some letter
    → format_usi_move m ≡ some (letter ∷ b'*' ∷ square_to_usi dst)
unfolding format_usi_move
format-ReadsDrop v e = rw (v.drop, v.kind, v.target, e) refl

-- The second byte of a square is no `*`.
rank-ne : (s : Square) → (rank_to_usi (rank s) == b'*') ≡ false
rank-ne s = ground arith

module _ {Info : Type 0} where
  -- A move that a text can name in a position: of the piece on its origin, promoting or not, or a
  -- drop of a kind but the king by the side to move.
  pub data Encodes (pos : Position Info) (m : Move) : Type 0 where
    plain :
        (src dst : Square) (p : Piece)
        → IsSquare src
        → IsSquare dst
        → get pos.board src ≡ some p
        → m ≡ make src dst p
        → Encodes pos m
    promoting :
        (src dst : Square) (p : Piece)
        → IsSquare src
        → IsSquare dst
        → get pos.board src ≡ some p
        → p.promoted ≡ false
        → m ≡ make_promote src dst p
        → Encodes pos m
    dropped :
        (k : PieceKind) (dst : Square)
        → k ≢ king
        → IsSquare dst
        → m ≡ make_drop k pos.side_to_move dst
        → Encodes pos m

  abbrev pub Prints : Position Info → Move → Type 0
  Prints pos m = (t : Text) × (format_usi_move m ≡ some t) × (parse_usi_move t pos ≡ ok m)

  parse-path :
      (pos : Position Info) (m : Move) (src dst : Square) (p : Piece) (promotes : Bool)
      → IsSquare src
      → IsSquare dst
      → get pos.board src ≡ some p
      → encode src dst promotes p ≡ ok m
      → parse_usi_move
          (square_to_usi src ++ (square_to_usi dst ++ (if promotes then b'+' ∷ [] else [])))
          pos
        ≡ ok m
  unfolding parse_usi_move parse_board_move
  parse-path pos m src dst p false hs hd origin e =
      rw (rank-ne src, parse-square_to_usi src hs, parse-square_to_usi dst hd, origin) e
  parse-path pos m src dst p true hs hd origin e =
      rw (parse-square_to_usi src hs, parse-square_to_usi dst hd, origin) e

  parse-dropped :
      (pos : Position Info) (k : PieceKind) (dst : Square) (c : ℕ)
      → IsSquare dst
      → drop_letter k ≡ some c
      → parse_usi_move (c ∷ b'*' ∷ square_to_usi dst) pos ≡ ok (make_drop k pos.side_to_move dst)
  unfolding parse_usi_move parse_drop
  parse-dropped pos k dst c hd letter =
      rw (parse-drop_letter k letter, parse-square_to_usi dst hd) refl

  -- A move that a text can name prints as a text, and the text parses to it.
  pub parse-format : (pos : Position Info) (m : Move) → Encodes pos m → Prints pos m
  parse-format pos m (plain src dst p hs hd origin e) = rw e (
    _,
    format-IsPath (make src dst p) src dst false (make-IsPath src dst p hs hd),
    parse-path pos (make src dst p) src dst p false hs hd origin refl,
  )
  parse-format pos m (promoting src dst p hs hd origin fresh e) = rw e (
    _,
    format-IsPath (make_promote src dst p) src dst true (make_promote-IsPath src dst p hs hd),
    parse-path pos (make_promote src dst p) src dst p true hs hd origin (rw fresh refl),
  )
  parse-format pos m (dropped k dst hk hd e) =
      let (c, letter) = drop_letter-some k hk in
      rw e (
        c ∷ b'*' ∷ square_to_usi dst,
        format-ReadsDrop (make_drop-Reads k pos.side_to_move dst hk hd) letter,
        parse-dropped pos k dst c hd letter,
      )

-- ===== src/State/Sfen/BoardRoundTrip.antt =====
-- The board field round trip: `parse_board` reads back the board that `format_board` prints.
use attic_shogi.Prelude.{
  ℕ, zero, suc, ◌+◌, ◌*◌, ◌≤◌, ◌<◌, ◌≡◌, refl, sym, ap, ◌∙◌, false, ◌==◌, inl, inr, Option, none,
  some, Option-cases, [], ◌∷◌, ◌++◌, get_or, replicate, arith, ℕ_discrete,
}
use native.Mathlib.Nat.{add-zero}
use attic_shogi.Prelude.Result.{ok}
use attic_shogi.State.Piece.{Piece, can_promote}
use attic_shogi.State.Square.{Square, IsSquare}
use attic_shogi.State.Board
use attic_shogi.State.Board.{Board, get, put}
use attic_shogi.State.Board.Laws.{IsBoard, get-put_self, get-put_ne}
use attic_shogi.State.Position.Types.{CheckOps, Position}
use attic_shogi.State.Sfen.Chars.{Text}
use attic_shogi.State.Sfen.Parser.{
  Cursor, board_char, board_chars, next_rank, end_of_board, parse_board,
}
use attic_shogi.State.Sfen.Printer.{flush, format_piece, format_files, format_ranks, format_board}
use attic_shogi.State.Sfen.Rows.{
  IsPiece, cursor, placed, chars-flush, chars-piece, chars-ok, ++_assoc,
}
use mathlib.Core.Option.{none-ne-some, some-injective}
use attic_shogi.State.Sfen.Copy.{
  copy_square, copy_files, copy_ranks, copy_ranks-IsCopy, start-IsCopy, whole-IsCopy,
  copy_ranks-rest,
}

-- Every piece on the board that is promoted can promote.
abbrev pub HasPieces : Board → Type 0
HasPieces b = (s : Square) (p : Piece) → get b s ≡ some p → IsPiece p

-- Boards with such pieces.
pub empty-HasPieces : HasPieces Board.empty
unfolding get Board.empty
empty-HasPieces s p e = absurd (none-ne-some p (sym (free 81 s) ∙ e))
  where
    free : (n s : ℕ) → ◌≡◌ {A = Option Piece} (get_or (replicate n none) s none) none
    free zero s = refl
    free (suc n) zero = refl
    free (suc n) (suc s) = free n s

pub put-HasPieces :
    (b : Board) (s : Square) (p : Piece)
    → IsSquare s
    → IsBoard b
    → IsPiece p
    → HasPieces b
    → HasPieces (put b s (some p))
put-HasPieces b s p hs hb hp h t q e = elim (ℕ_discrete t s) [
  | yes same ↦
      let own : p ≡ q =
        some-injective _ _ (sym (get-put_self b s (some p) hs hb) ∙ (rw same at e)) in
      λ promoted. ap (λ r. can_promote r.kind) (sym own) ∙ hp (ap (λ r. r.promoted) own ∙ promoted)
  | no apart ↦ h t q (sym (get-put_ne b s t (some p) (λ r. apart (sym r))) ∙ e)
]

module _ {Info : Type 0} (ops : CheckOps Info) (b : Board) where
  chars-files :
      (r n e : ℕ) (t : Text) (pos : Position Info)
      → HasPieces b
      → r < 9
      → n + e ≤ 9
      → board_chars ops (format_files b r n e ++ t) (cursor ops pos (n + e) r false)
        ≡ board_chars ops t (cursor ops (copy_files ops b r n pos) 0 r false)
  unfolding format_files copy_files copy_square
  chars-files r zero e t pos h hr hn = chars-flush ops e t pos 0 r (omega arith)
  chars-files r (suc f) e t pos h hr hn = elim (Option-cases (get b (f * 9 + r))) [
    | inl free ↦
        let shift : suc f + e ≡ f + (e + 1) = omega arith in
        rw (format_files, copy_square, free, shift)
          (chars-files r f (e + 1) t pos h hr (omega arith))
    | inr (p, held) ↦
        let rest = format_files b r f 0 in
        let whole : ((flush e ++ (format_piece p ++ rest)) ++ t)
            ≡ flush e ++ (format_piece p ++ (rest ++ t)) =
          ++_assoc (flush e) (format_piece p ++ rest) t
          ∙ ap (λ u. flush e ++ u) (++_assoc (format_piece p) rest t) in
        let row : f + 0 ≡ f = add-zero f in
        rw (format_files, copy_square, held, whole)
          (chars-flush ops e (format_piece p ++ (rest ++ t)) pos (suc f) r (omega arith)
            ∙ chars-piece ops p (rest ++ t) pos f r (h (f * 9 + r) p held) (omega arith) hr
            ∙ (rw row at (chars-files r f 0 t (placed ops (f * 9 + r) p pos) h hr (omega arith))))
  ]

  chars-slash :
      (r : ℕ) (t : Text) (pos : Position Info)
      → r < 8
      → board_chars ops (b'/' ∷ t) (cursor ops pos 0 r false)
        ≡ board_chars ops t (cursor ops pos 9 (suc r) false)
  unfolding board_char next_rank
  chars-slash r t pos h =
      let inner : (r == 8) ≡ false = ground arith in
      let next : r + 1 ≡ suc r = omega arith in
      chars-ok ops b'/' t (cursor ops pos 0 r false) (rw (inner, next) refl)

  chars-end : (k : Cursor Info) → board_chars ops [] k ≡ ok k
  unfolding board_chars
  chars-end k = refl

  chars-ranks :
      (r n : ℕ) (pos : Position Info)
      → HasPieces b
      → r + n ≡ 8
      → board_chars ops (format_ranks b (suc r) n) (cursor ops pos 0 r false)
        ≡ ok (cursor ops (copy_ranks ops b (suc r) n pos) 0 8 false)
  unfolding format_ranks copy_ranks
  chars-ranks r zero pos h e =
      let last : r ≡ 8 = omega arith in rw last (chars-end (cursor ops pos 0 8 false))
  chars-ranks r (suc n) pos h e =
      let after : suc r + 1 ≡ suc (suc r) = omega arith in
      let inner : (suc r == 0) ≡ false = ground arith in
      let more = format_ranks b (suc (suc r)) n in
      let slash = chars-slash r (format_files b (suc r) 9 0 ++ more) pos (omega arith) in
      rw (inner, after)
        (slash
          ∙ chars-files (suc r) 9 0 more pos h (omega arith) (omega arith)
          ∙ chars-ranks (suc r) n (copy_files ops b (suc r) 9 pos) h (omega arith))

  parse-format_board :
      (pos : Position Info)
      → HasPieces b
      → parse_board ops (format_board b) pos ≡ ok (copy_ranks ops b 0 9 pos)
  unfolding parse_board format_board format_ranks copy_ranks end_of_board
  parse-format_board pos h =
      let more = format_ranks b 1 8 in
      rw
        (
          chars-files 0 9 0 more pos h (omega arith) (omega arith),
          chars-ranks 0 8 (copy_files ops b 0 9 pos) h (omega arith),
        )
        refl

  -- The printed board parses back to the board, with its sets, from a position with an empty board,
  -- whose hands, side to move and ply stay. For a board whose sets are exact and whose promoted
  -- pieces can promote.
  pub parse_board-format_board :
      (pos : Position Info)
      → IsBoard b
      → HasPieces b
      → pos.board ≡ Board.empty
      → (q : Position Info) × (parse_board ops (format_board b) pos ≡ ok q)
        × (q.board ≡ b)
        × (q.hands ≡ pos.hands)
        × (q.side_to_move ≡ pos.side_to_move)
        × (q.ply ≡ pos.ply)
  parse_board-format_board pos hb hp e =
      let (same_hands, same_side, same_ply) = copy_ranks-rest ops b 0 9 pos in
      (
        copy_ranks ops b 0 9 pos,
        parse-format_board pos hp,
        whole-IsCopy ops b (copy_ranks ops b 0 9 pos) hb
            (copy_ranks-IsCopy ops b 0 9 pos (omega arith) (start-IsCopy ops b pos e)),
        same_hands,
        same_side,
        same_ply,
      )

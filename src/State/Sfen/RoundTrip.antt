-- ===== src/State/Sfen/RoundTrip.antt =====
-- The round trip of SFEN texts: `parse_sfen` reads back what `format_sfen` prints.
use attic_shogi.Prelude.{ℕ, ◌≡◌, refl, ap, ◌∙◌, ◌<◌, ◌^◌, [], ◌∷◌, ◌++◌}
use attic_shogi.Prelude.Result.{ok}
use attic_shogi.State.Piece.{Color, black, white, at}
use attic_shogi.State.Position.Types.{CheckOps, Position}
use attic_shogi.State.Position.Valid.{IsPosition}
use attic_shogi.State.Position.Hash.{IsExact, refresh_keys}
use attic_shogi.State.Position.Setters.{set_side_to_move, set_ply, refresh_keys-IsPosition}
use attic_shogi.State.Sfen.Chars.{to_string, split}
use attic_shogi.State.Sfen.Parser.{
  empty_position, parse_side_to_move, parse_ply, parse_fields, parse_sfen,
}
use attic_shogi.State.Sfen.Printer.{format_board, format_hands, format_sfen, side_char}
use attic_shogi.State.Sfen.BoardRoundTrip.{HasPieces, parse_board-format_board}
use attic_shogi.State.Sfen.HandRoundTrip.{parse_hands-format_hands}
use attic_shogi.State.Sfen.Numbers.{parse_u16-to_string}
use attic_shogi.State.Sfen.Spaces.{
  NoSpace, split-first, split-last, format_board-NoSpace, format_hands-NoSpace, to_string-NoSpace,
}

side_char-NoSpace : (c : Color) → NoSpace (side_char c ∷ [])
unfolding side_char
side_char-NoSpace black = (refl, tt)
side_char-NoSpace white = (refl, tt)

module _ {Info : Type 0} (ops : CheckOps Info) where
  parse-side_char :
      (c : Color) (pos : Position Info)
      → parse_side_to_move ops (side_char c ∷ []) pos ≡ ok (set_side_to_move ops c pos)
  unfolding parse_side_to_move side_char
  parse-side_char black pos = refl
  parse-side_char white pos = refl

  parse-ply :
      (pos : Position Info) (n : ℕ) → n < 2 ^ 16 → parse_ply (to_string n) pos ≡ ok (set_ply n pos)
  unfolding parse_ply
  parse-ply pos n h = rw (parse_u16-to_string n h) refl

  split-format_sfen :
      (pos : Position Info)
      → split b' ' (format_sfen pos)
        ≡ format_board pos.board
          ∷ (side_char pos.side_to_move ∷ [])
          ∷ format_hands pos.hands
          ∷ to_string pos.ply
          ∷ []
  unfolding format_sfen
  split-format_sfen pos =
      rw
        (
          split-first (format_board pos.board)
              (side_char pos.side_to_move
                ∷ b' '
                ∷ (format_hands pos.hands ++ (b' ' ∷ to_string pos.ply)))
              (format_board-NoSpace pos.board),
          split-first (side_char pos.side_to_move ∷ [])
              (format_hands pos.hands ++ (b' ' ∷ to_string pos.ply))
              (side_char-NoSpace pos.side_to_move),
          split-first (format_hands pos.hands) (to_string pos.ply) (format_hands-NoSpace pos.hands),
          split-last (to_string pos.ply) (to_string-NoSpace pos.ply),
        )
        refl

  -- A position that is printed and parsed again has its board with the sets, its hands, side to
  -- move and ply, and exact keys. For a valid position on whose board only pieces that can promote
  -- are promoted; its history is not printed.
  pub parse_sfen-format_sfen :
      (pos : Position Info)
      → IsPosition pos
      → HasPieces pos.board
      → (q : Position Info) × (parse_sfen ops (format_sfen pos) ≡ ok q)
        × (q.board ≡ pos.board)
        × (q.hands ≡ pos.hands)
        × (q.side_to_move ≡ pos.side_to_move)
        × (q.ply ≡ pos.ply)
        × IsExact q
  unfolding parse_sfen parse_fields set_side_to_move set_ply refresh_keys
  parse_sfen-format_sfen pos v pieces =
      let (q1, e1, b1, h1, s1, y1) =
        parse_board-format_board ops pos.board (empty_position ops) v.board pieces refl in
      let q2 = set_side_to_move ops pos.side_to_move q1 in
      let (q3, e3, h3, b3, s3, y3) =
        parse_hands-format_hands pos.hands q2 v.hands (ap (λ u. at u black) h1)
          (ap (λ u. at u white) h1) in
      let q4 = set_ply pos.ply q3 in
      let e2 = parse-side_char pos.side_to_move q1 in
      let e4 = parse-ply q3 pos.ply v.ply in
      let (valid, exact) =
        refresh_keys-IsPosition ops q4 (rw (b3 ∙ b1) v.board)
          (λ c. rw (ap (λ u. at u c) h3) (v.hands c)) v.ply in
      (
        refresh_keys ops q4,
        rw (split-format_sfen pos, e1, e2, e3, e4) refl,
        b3 ∙ b1,
        h3,
        s3,
        refl,
        exact,
      )

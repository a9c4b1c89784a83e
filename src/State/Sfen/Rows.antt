-- ===== src/State/Sfen/Rows.antt =====
-- The printed board, read back character by character.
use attic_shogi.Prelude.{
  ◌^◌, ◌%◌, ℕ, zero, suc, ◌+◌, ◌-◌, ◌*◌, ◌≤◌, ◌<◌, ◌≡◌, refl, ap, ◌∙◌, Bool, true, false, ◌==◌, ltb,
  leb, ◌&&◌, ◌||◌, Bool-cases, inl, inr, some, List, [], ◌∷◌, ◌++◌, arith,
}
use native.Mathlib.Nat.{add-zero}
use attic_shogi.Prelude.Result.{ok}
use attic_shogi.State.Piece.{
  Color, black, white, PieceKind, pawn, lance, knight, silver, gold, bishop, rook, king, Piece,
  can_promote, new_promoted,
}
use attic_shogi.State.Square
use attic_shogi.State.Square.{Square}
use attic_shogi.State.Board.{put}
use attic_shogi.State.Position.Types.{CheckOps, Position}
use attic_shogi.State.Position.Setters.{board_mut}
use attic_shogi.State.Sfen.Chars.{Text, piece_char, upper_of_kind, parse_piece_char}
use attic_shogi.State.Sfen.Parser.{
  Cursor, skip_files, piece_of, square_here, place_piece, board_char, board_chars,
}
use attic_shogi.State.Sfen.Printer.{flush, format_piece}

-- A piece that is promoted can promote.
abbrev pub IsPiece : Piece → Type 0
IsPiece p = p.promoted ≡ true → can_promote p.kind ≡ true

pub parse-piece_char : (k : PieceKind) (c : Color) → parse_piece_char (piece_char k c) ≡ ok (k, c)
unfolding parse_piece_char piece_char
parse-piece_char pawn black = refl
parse-piece_char pawn white = refl
parse-piece_char lance black = refl
parse-piece_char lance white = refl
parse-piece_char knight black = refl
parse-piece_char knight white = refl
parse-piece_char silver black = refl
parse-piece_char silver white = refl
parse-piece_char gold black = refl
parse-piece_char gold white = refl
parse-piece_char bishop black = refl
parse-piece_char bishop white = refl
parse-piece_char rook black = refl
parse-piece_char rook white = refl
parse-piece_char king black = refl
parse-piece_char king white = refl

pub piece_char-letter : (k : PieceKind) (c : Color) → 65 ≤ piece_char k c
unfolding piece_char upper_of_kind
piece_char-letter k black = ground arith
piece_char-letter k white = ground arith

pub flush-suc : (e : ℕ) → flush (suc e) ≡ (b'0' + suc e) ∷ []
unfolding flush
flush-suc e = let some_empty : ltb 0 (suc e) ≡ true = ground arith in rw some_empty refl

suc-sub_one : (f : ℕ) → suc f - 1 ≡ f
suc-sub_one f = omega arith

piece_of-own :
    (ch : ℕ) (k : PieceKind) (c : Color) (promoted : Bool)
    → (promoted ≡ true → can_promote k ≡ true)
    → piece_of ch promoted k c ≡ ok (record { kind = k; color = c; promoted = promoted })
unfolding piece_of new_promoted
piece_of-own ch k c true hp = rw (hp refl) refl
piece_of-own ch k c false hp = refl

pub ++_assoc {ℓ} : {A : Type ℓ} (xs ys zs : List A) → (xs ++ ys) ++ zs ≡ xs ++ (ys ++ zs)
++_assoc [] ys zs = refl
++_assoc (x ∷ xs) ys zs = ap (λ l. x ∷ l) (++_assoc xs ys zs)

module _ {Info : Type 0} (ops : CheckOps Info) where
  abbrev pub cursor : Position Info → (left rank : ℕ) → Bool → Cursor Info
  cursor pos left rank promote = record { pos = pos; left = left; rank = rank; promote = promote }

  board_char-letter :
      (ch : ℕ) (k : Cursor Info) → 65 ≤ ch → board_char ops ch k ≡ place_piece ops ch k
  unfolding board_char
  board_char-letter ch k h =
      let slash : (ch == b'/') ≡ false = ground arith in
      let plus : (ch == b'+') ≡ false = ground arith in
      let digit : (leb b'1' ch && leb ch b'9') ≡ false = ground arith in
      rw (slash, plus, digit) refl

  board_char-digit :
      (e : ℕ) (k : Cursor Info) → 0 < e → e ≤ 9 → board_char ops (b'0' + e) k ≡ skip_files e k
  unfolding board_char
  board_char-digit e k p h =
      let slash : (b'0' + e == b'/') ≡ false = ground arith in
      let plus : (b'0' + e == b'+') ≡ false = ground arith in
      let digit : (leb b'1' (b'0' + e) && leb (b'0' + e) b'9') ≡ true = ground arith in
      let value : b'0' + e - b'0' ≡ e = omega arith in rw (slash, plus, digit, value) refl

  skip_files-cursor :
      (e : ℕ) (pos : Position Info) (left rank : ℕ)
      → skip_files e (cursor pos (left + e) rank false) ≡ ok (cursor pos left rank false)
  unfolding skip_files
  skip_files-cursor e pos left rank =
      let enough : ltb (left + e) e ≡ false = ground arith in
      let rest : left + e - e ≡ left = omega arith in rw (enough, rest) refl

  pub chars-ok :
      (ch : ℕ) (t : Text) (k : Cursor Info) {k' : Cursor Info}
      → board_char ops ch k ≡ ok k'
      → board_chars ops (ch ∷ t) k ≡ board_chars ops t k'
  unfolding board_chars
  chars-ok ch t k e = rw e refl

  -- The count of empty squares skips them.
  pub chars-flush :
      (e : ℕ) (t : Text) (pos : Position Info) (left rank : ℕ)
      → e ≤ 9
      → board_chars ops (flush e ++ t) (cursor pos (left + e) rank false)
        ≡ board_chars ops t (cursor pos left rank false)
  unfolding board_chars flush
  chars-flush zero t pos left rank h = rw (add-zero left) refl
  chars-flush (suc e) t pos left rank h =
      let step = board_char-digit (suc e) (cursor pos (left + suc e) rank false) (omega arith) h in
      rw (flush-suc e) (
        chars-ok (b'0' + suc e) t (cursor pos (left + suc e) rank false)
          (step ∙ skip_files-cursor (suc e) pos left rank))

  -- What a piece of the printed board does to the position.
  abbrev pub placed : Square → Piece → Position Info → Position Info
  placed s p pos = board_mut ops (λ b. put b s (some p)) pos

  square_here-cursor :
      (pos : Position Info) (f rank : ℕ) (promote : Bool)
      → f < 9
      → rank < 9
      → square_here (cursor pos (suc f) rank promote) ≡ ok (f * 9 + rank)
  unfolding square_here Square.new
  square_here-cursor pos f rank promote hf hr =
      let inside : (ltb f 9 && ltb rank 9) ≡ true = ground arith in
      let file : (suc f + 2 ^ 8 - 1) % 2 ^ 8 ≡ f = omega arith in
      rw (square_here, file, inside) refl

  place_piece-cursor :
      (p : Piece) (pos : Position Info) (f rank : ℕ)
      → IsPiece p
      → f < 9
      → rank < 9
      → place_piece ops (piece_char p.kind p.color) (cursor pos (suc f) rank p.promoted)
        ≡ ok (cursor (placed (f * 9 + rank) p pos) f rank false)
  unfolding place_piece
  place_piece-cursor p pos f rank hp hf hr =
      let guard : (suc f == 0 || leb 9 rank) ≡ false = ground arith in
      rw
        (
          parse-piece_char p.kind p.color,
          guard,
          piece_of-own (piece_char p.kind p.color) p.kind p.color p.promoted hp,
          square_here-cursor pos f rank p.promoted hf hr,
          suc-sub_one f,
        )
        refl

  chars-letter :
      (p : Piece) (t : Text) (pos : Position Info) (f rank : ℕ)
      → IsPiece p
      → f < 9
      → rank < 9
      → board_chars ops (piece_char p.kind p.color ∷ t) (cursor pos (suc f) rank p.promoted)
        ≡ board_chars ops t (cursor (placed (f * 9 + rank) p pos) f rank false)
  chars-letter p t pos f rank hp hf hr =
      chars-ok (piece_char p.kind p.color) t (cursor pos (suc f) rank p.promoted) (
        board_char-letter (piece_char p.kind p.color) (cursor pos (suc f) rank p.promoted)
          (piece_char-letter p.kind p.color)
        ∙ place_piece-cursor p pos f rank hp hf hr)

  chars-plus :
      (t : Text) (pos : Position Info) (left rank : ℕ)
      → board_chars ops (b'+' ∷ t) (cursor pos left rank false)
        ≡ board_chars ops t (cursor pos left rank true)
  unfolding board_chars board_char
  chars-plus t pos left rank = refl

  -- A printed piece is placed where the cursor stands.
  pub chars-piece :
      (p : Piece) (t : Text) (pos : Position Info) (f rank : ℕ)
      → IsPiece p
      → f < 9
      → rank < 9
      → board_chars ops (format_piece p ++ t) (cursor pos (suc f) rank false)
        ≡ board_chars ops t (cursor (placed (f * 9 + rank) p pos) f rank false)
  unfolding format_piece
  chars-piece p t pos f rank hp hf hr =
      let letter = chars-letter p t pos f rank hp hf hr in
      elim (Bool-cases p.promoted) [
        | inl e ↦
            rw e (chars-plus (piece_char p.kind p.color ∷ t) pos (suc f) rank ∙ (rw e at letter))
        | inr e ↦ rw e (rw e at letter)
      ]

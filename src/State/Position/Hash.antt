-- ===== src/State/Position/Hash.antt =====
-- `recomputed_keys` and `recomputed_partial_keys` of position.rs: the keys from scratch, and how a
-- change of one square moves a key that is made of XORed terms.
use attic_shogi.Prelude.{
  ℕ, zero, suc, ◌+◌, ◌*◌, ◌%◌, ◌<◌, bit_xor, ◌≡◌, refl, sym, ap, ◌∙◌, List, [], ◌∷◌, Option, none,
  some, set, get_or, length, arith,
}
use attic_shogi.State.Piece.{
  Color, black, white, PieceKind, pawn, lance, knight, silver, gold, bishop, rook, Piece, PerColor,
}
use attic_shogi.State.Square.{Square, IsSquare}
use attic_shogi.State.Hand.{Hand, count}
use attic_shogi.State.Board.{Board, get, put}
use attic_shogi.State.Board.Laws.{IsBoard, put-squares}
use attic_shogi.State.Key.{word, psq, side, hand_step, no_pawns_seed}
use attic_shogi.State.Position.Types.{CheckOps, Position, xor_pawn, xor_minor, xor_non_pawn}

-- The loop over the squares, from square `i` on.
unfoldable pub fold_squares {ℓ} :
    {K : Type ℓ} → (Piece → Square → K → K) → List (Option Piece) → Square → K → K
fold_squares f [] i key = key
fold_squares f (none ∷ l) i key = fold_squares f l (i + 1) key
fold_squares f (some p ∷ l) i key = fold_squares f l (i + 1) (f p i key)

abbrev pub xor_psq : Piece → Square → ℕ → ℕ
xor_psq p s key = bit_xor key (psq p s)

abbrev pub xor_side : Color → ℕ → ℕ
xor_side black key = key
xor_side white key = bit_xor key side

unfoldable pub recomputed_board_key : Board → Color → ℕ
recomputed_board_key b c = xor_side c (fold_squares xor_psq b.squares 0 0)

-- The loop over the hand kinds of one colour.
abbrev pub held_kinds : List PieceKind
held_kinds = pawn ∷ lance ∷ knight ∷ silver ∷ gold ∷ bishop ∷ rook ∷ []

unfoldable pub fold_hand : Color → Hand → List PieceKind → ℕ → ℕ
fold_hand c h [] key = key
fold_hand c h (k ∷ ks) key = fold_hand c h ks ((key + hand_step c k * count h k % word) % word)

unfoldable pub recomputed_hand_key : PerColor Hand → ℕ
recomputed_hand_key hands =
    fold_hand white hands.of_white held_kinds (fold_hand black hands.of_black held_kinds 0)

unfoldable pub recomputed_pawn_key : Board → ℕ
recomputed_pawn_key b = fold_squares xor_pawn b.squares 0 no_pawns_seed

unfoldable pub recomputed_minor_key : Board → ℕ
recomputed_minor_key b = fold_squares xor_minor b.squares 0 0

unfoldable pub recomputed_non_pawn_key : Board → PerColor ℕ
recomputed_non_pawn_key b =
    fold_squares xor_non_pawn b.squares 0 (record { of_black = 0; of_white = 0 })

-- Every key is exact: it is what a recomputation from the board, the hands and the turn gives.
pub record IsExact {Info : Type 0} (pos : Position Info) : Type 0 where
  pub board_key : pos.board_key ≡ recomputed_board_key pos.board pos.side_to_move
  pub hand_key : pos.hand_key ≡ recomputed_hand_key pos.hands
  pub pawn_key : pos.pawn_key ≡ recomputed_pawn_key pos.board
  pub minor_piece_key : pos.minor_piece_key ≡ recomputed_minor_key pos.board
  pub non_pawn_key : pos.non_pawn_key ≡ recomputed_non_pawn_key pos.board

-- One square's content toggled into a key.
abbrev pub toggle {ℓ} : {K : Type ℓ} → (Piece → Square → K → K) → Option Piece → Square → K → K
toggle f none s key = key
toggle f (some p) s key = f p s key

-- A step that undoes itself, and steps that may be made in any order.
pub record IsToggle {ℓ} {K : Type ℓ} (f : Piece → Square → K → K) : Type ℓ where
  pub twice : (p : Piece) (s : Square) (key : K) → f p s (f p s key) ≡ key
  pub swap : (p q : Piece) (s t : Square) (key : K) → f p s (f q t key) ≡ f q t (f p s key)

module _ {ℓ} {K : Type ℓ} {f : Piece → Square → K → K} (t : IsToggle f) where
  pub toggle_swap :
      (o : Option Piece) (s : Square) (p : Piece) (r : Square) (key : K)
      → toggle f o s (f p r key) ≡ f p r (toggle f o s key)
  toggle_swap none s p r key = refl
  toggle_swap (some q) s p r key = t.swap q p s r key

  -- A toggle before the loop is a toggle after it.
  fold_squares-toggle :
      (l : List (Option Piece)) (i : Square) (o : Option Piece) (s : Square) (key : K)
      → fold_squares f l i (toggle f o s key) ≡ toggle f o s (fold_squares f l i key)
  unfolding fold_squares
  fold_squares-toggle [] i o s key = refl
  fold_squares-toggle (none ∷ l) i o s key = fold_squares-toggle l (i + 1) o s key
  fold_squares-toggle (some p ∷ l) i o s key =
      ap (fold_squares f l (i + 1)) (sym (toggle_swap o s p i key))
      ∙ fold_squares-toggle l (i + 1) o s (f p i key)

  toggle_twice : (o : Option Piece) (s : Square) (key : K) → toggle f o s (toggle f o s key) ≡ key
  toggle_twice none s key = refl
  toggle_twice (some p) s key = t.twice p s key

  fold_squares-cons :
      (x : Option Piece) (l : List (Option Piece)) (i : Square) (key : K)
      → fold_squares f (x ∷ l) i key ≡ toggle f x i (fold_squares f l (i + 1) key)
  unfolding fold_squares
  fold_squares-cons none l i key = refl
  fold_squares-cons (some p) l i key = fold_squares-toggle l (i + 1) (some p) i key

  -- A write toggles the old content out and the new one in.
  fold_squares-set :
      (l : List (Option Piece)) (i j : Square) (k : ℕ) (o : Option Piece) (key : K)
      → k < length l
      → i + k ≡ j
      → fold_squares f (set l k o) i key
        ≡ toggle f o j (toggle f (get_or l k none) j (fold_squares f l i key))
  unfolding fold_squares
  fold_squares-set [] i j k o key h e = absurd (omega arith)
  fold_squares-set (x ∷ l) i j zero o key h e =
      let same : i ≡ j = omega arith in
      fold_squares-cons o l i key
      ∙ ap (toggle f o i)
          (sym (ap (toggle f x i) (fold_squares-cons x l i key) ∙ toggle_twice x i _))
      ∙ rw same refl
  fold_squares-set (none ∷ l) i j (suc k) o key h e =
      fold_squares-set l (i + 1) j k o key (omega arith) (omega arith)
  fold_squares-set (some p ∷ l) i j (suc k) o key h e =
      fold_squares-set l (i + 1) j k o (f p i key) (omega arith) (omega arith)

  pub fold-put :
      (b : Board) (s : Square) (o : Option Piece) (key : K)
      → IsSquare s
      → IsBoard b
      → fold_squares f (put b s o).squares 0 key
        ≡ toggle f o s (toggle f (get b s) s (fold_squares f b.squares 0 key))
  unfolding get
  fold-put b s o key h v =
      ap (λ (l : List (Option Piece)). fold_squares f l 0 key) (put-squares b s o)
      ∙ fold_squares-set b.squares 0 s s o key (rw (v.size) h) (omega arith)

-- `refresh_keys`, after changes that bypass the incremental keys.
unfoldable pub refresh_keys : {Info : Type 0} → CheckOps Info → Position Info → Position Info
unfolding recomputed_board_key recomputed_hand_key recomputed_pawn_key recomputed_minor_key
    recomputed_non_pawn_key
refresh_keys ops pos = record pos {
  board_key = recomputed_board_key pos.board pos.side_to_move;
  hand_key = recomputed_hand_key pos.hands;
  pawn_key = recomputed_pawn_key pos.board;
  minor_piece_key = recomputed_minor_key pos.board;
  non_pawn_key = recomputed_non_pawn_key pos.board;
  check_info =
      ops.compute pos.board pos.side_to_move (recomputed_board_key pos.board pos.side_to_move) none
        none;
}

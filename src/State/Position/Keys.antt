-- ===== src/State/Position/Keys.antt =====
-- The partial keys are toggled: the same call places a piece and removes it.
use attic_shogi.Prelude.{ℕ, ◌<◌, bit_xor, ◌≡◌, arith, ap, ◌∙◌}
use attic_shogi.Prelude.Xor.{xor_cancel}
use attic_shogi.State.Piece.{
  Color, Piece, PerColor, at, set_at, at-set_at_self, set_at-set_at, set_at-at,
}
use attic_shogi.State.Square.{Square}
use attic_shogi.State.Key.{psq, word}
use attic_shogi.State.Position.Types.{
  Position, add64, sub64, xor_pawn, xor_minor, xor_non_pawn, xor_piece_partial,
}

pub xor_pawn_twice : (p : Piece) (s : Square) (k : ℕ) → xor_pawn p s (xor_pawn p s k) ≡ k
unfolding xor_pawn
xor_pawn_twice p s k = ground (arith, xor_cancel k (psq p s))

pub xor_minor_twice : (p : Piece) (s : Square) (k : ℕ) → xor_minor p s (xor_minor p s k) ≡ k
unfolding xor_minor
xor_minor_twice p s k = ground (arith, xor_cancel k (psq p s))

toggle_color_twice :
    (keys : PerColor ℕ) (c : Color) (t : ℕ)
    → let keys' = set_at keys c (bit_xor (at keys c) t) in
      set_at keys' c (bit_xor (at keys' c) t) ≡ keys
toggle_color_twice keys c t =
    let term = bit_xor (at keys c) t in
    set_at-set_at keys c term (bit_xor (at (set_at keys c term) c) t)
    ∙ ap (set_at keys c)
        (ap (λ (x : ℕ). bit_xor x t) (at-set_at_self keys c term) ∙ xor_cancel (at keys c) t)
    ∙ set_at-at keys c

pub xor_non_pawn_twice :
    (p : Piece) (s : Square) (keys : PerColor ℕ) → xor_non_pawn p s (xor_non_pawn p s keys) ≡ keys
unfolding xor_non_pawn
xor_non_pawn_twice p s keys = ground (arith, toggle_color_twice keys p.color (psq p s))

-- Toggling a piece's term twice leaves all three partial keys as they were.
pub xor_piece_partial_twice :
    {Info : Type 0} (p : Piece) (s : Square) (pos : Position Info)
    → xor_piece_partial p s (xor_piece_partial p s pos) ≡ pos
unfolding xor_piece_partial
xor_piece_partial_twice p s pos = λ i. record pos {
  pawn_key = xor_pawn_twice p s pos.pawn_key i;
  minor_piece_key = xor_minor_twice p s pos.minor_piece_key i;
  non_pawn_key = xor_non_pawn_twice p s pos.non_pawn_key i;
}

-- The wrapping sums undo one another.
pub sub64-add64 : (a b : ℕ) → a < word → b < word → sub64 (add64 a b) b ≡ a
sub64-add64 a b p q = omega arith

pub add64-sub64 : (a b : ℕ) → a < word → b < word → add64 (sub64 a b) b ≡ a
add64-sub64 a b p q = omega arith

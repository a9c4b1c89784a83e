-- ===== src/State/Position/Toggles.antt =====
-- The steps of the four keys that are XORs over the board are toggles.
use attic_shogi.Prelude.{ℕ, bit_xor, ◌≡◌, refl, arith}
use attic_shogi.Prelude.Xor.{xor_cancel, xor_right_comm}
use attic_shogi.State.Piece.{Color, black, white, Piece, PerColor, at, set_at}
use attic_shogi.State.Square.{Square}
use attic_shogi.State.Key.{psq}
use attic_shogi.State.Position.Types.{xor_pawn, xor_minor, xor_non_pawn}
use attic_shogi.State.Position.Keys.{xor_pawn_twice, xor_minor_twice, xor_non_pawn_twice}
use attic_shogi.State.Position.Hash.{xor_psq, IsToggle}

pub xor_psq-IsToggle : IsToggle xor_psq
xor_psq-IsToggle = record {
  twice = λ p s key. xor_cancel key (psq p s);
  swap = λ p q s t key. xor_right_comm key (psq q t) (psq p s);
}

pub xor_pawn-IsToggle : IsToggle xor_pawn
xor_pawn-IsToggle = record { twice = xor_pawn_twice; swap = swap }
  where
    swap :
        (p q : Piece) (s t : Square) (key : ℕ)
        → xor_pawn p s (xor_pawn q t key) ≡ xor_pawn q t (xor_pawn p s key)
    swap p q s t key = unfold xor_pawn in ground (arith, xor_right_comm key (psq q t) (psq p s))

pub xor_minor-IsToggle : IsToggle xor_minor
xor_minor-IsToggle = record { twice = xor_minor_twice; swap = swap }
  where
    swap :
        (p q : Piece) (s t : Square) (key : ℕ)
        → xor_minor p s (xor_minor q t key) ≡ xor_minor q t (xor_minor p s key)
    swap p q s t key = unfold xor_minor in ground (arith, xor_right_comm key (psq q t) (psq p s))

colors_swap :
    (keys : PerColor ℕ) (c d : Color) (x y : ℕ)
    → let k1 = set_at keys d (bit_xor (at keys d) y) in
      let k2 = set_at keys c (bit_xor (at keys c) x) in
      set_at k1 c (bit_xor (at k1 c) x) ≡ set_at k2 d (bit_xor (at k2 d) y)
colors_swap keys black black x y =
    λ i. record keys { of_black = xor_right_comm keys.of_black y x i }
colors_swap keys black white x y = refl
colors_swap keys white black x y = refl
colors_swap keys white white x y =
    λ i. record keys { of_white = xor_right_comm keys.of_white y x i }

pub xor_non_pawn-IsToggle : IsToggle xor_non_pawn
xor_non_pawn-IsToggle = record { twice = xor_non_pawn_twice; swap = swap }
  where
    swap :
        (p q : Piece) (s t : Square) (keys : PerColor ℕ)
        → xor_non_pawn p s (xor_non_pawn q t keys) ≡ xor_non_pawn q t (xor_non_pawn p s keys)
    swap p q s t keys =
        unfold xor_non_pawn in ground (arith, colors_swap keys p.color q.color (psq p s) (psq q t))

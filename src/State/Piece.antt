-- ===== src/State/Piece.antt =====
-- Colours and pieces: crates/attic-state/src/color.rs and piece.rs.
use attic_shogi.Prelude.{ℕ, ◌≡◌, refl, Bool, true, false, Option, none, some, if◌then◌else◌, arith}

pub data Color : Type 0 where
  black white : Color

unfoldable pub flip : Color → Color
flip black = white
flip white = black

-- `Color::index`.
abbrev pub color_index : Color → ℕ
color_index black = 0
color_index white = 1

pub data PieceKind : Type 0 where
  pawn lance knight silver gold bishop rook king : PieceKind

-- `PieceKind::index`.
abbrev pub kind_index : PieceKind → ℕ
kind_index pawn = 0
kind_index lance = 1
kind_index knight = 2
kind_index silver = 3
kind_index gold = 4
kind_index bishop = 5
kind_index rook = 6
kind_index king = 7

unfoldable pub can_promote : PieceKind → Bool
can_promote gold = false
can_promote king = false
can_promote _ = true

pub record Piece : Type 0 where
  pub kind : PieceKind
  pub color : Color
  pub promoted : Bool

-- `Piece::new`.
abbrev pub new : PieceKind → Color → Piece
new k c = record { kind = k; color = c; promoted = false }

-- `Piece::promoted`.
unfoldable pub new_promoted : PieceKind → Color → Option Piece
unfolding can_promote
new_promoted k c =
    if can_promote k then some (record { kind = k; color = c; promoted = true }) else none

pub Color-discrete : Discrete Color
Color-discrete = hlevel

pub PieceKind-discrete : Discrete PieceKind
PieceKind-discrete = hlevel

pub flip-flip : (c : Color) → flip (flip c) ≡ c
unfolding flip
flip-flip black = refl
flip-flip white = refl

-- `==` on colours.
abbrev pub same_color : Color → Color → Bool
same_color black black = true
same_color white white = true
same_color _ _ = false

pub eq_of_same_color : (c d : Color) → same_color c d ≡ true → c ≡ d
eq_of_same_color c d h = ground arith

pub same_color_refl : (c : Color) → same_color c c ≡ true
same_color_refl black = refl
same_color_refl white = refl

-- `[A; Color::COUNT]`, indexed by `Color::index`.
pub record PerColor {ℓ} (A : Type ℓ) : Type ℓ where
  pub of_black : A
  pub of_white : A

module _ {ℓ} {A : Type ℓ} where
  abbrev pub at : PerColor A → Color → A
  at p black = p.of_black
  at p white = p.of_white

  abbrev pub set_at : PerColor A → Color → A → PerColor A
  set_at p black v = record p { of_black = v }
  set_at p white v = record p { of_white = v }

  pub at-set_at :
      (p : PerColor A) (c d : Color) (v : A)
      → at (set_at p c v) d ≡ (if same_color c d then v else at p d)
  at-set_at p black black v = refl
  at-set_at p black white v = refl
  at-set_at p white black v = refl
  at-set_at p white white v = refl

  pub at-set_at_self : (p : PerColor A) (c : Color) (v : A) → at (set_at p c v) c ≡ v
  at-set_at_self p black v = refl
  at-set_at_self p white v = refl

  pub at-set_at-flip :
      (p : PerColor A) (c : Color) (v : A) → at (set_at p c v) (flip c) ≡ at p (flip c)
  unfolding flip
  at-set_at-flip p black v = refl
  at-set_at-flip p white v = refl

  -- Writing back what stood there.
  pub set_at-at : (p : PerColor A) (c : Color) → set_at p c (at p c) ≡ p
  set_at-at p black = refl
  set_at-at p white = refl

  pub set_at-set_at :
      (p : PerColor A) (c : Color) (v w : A) → set_at (set_at p c v) c w ≡ set_at p c w
  set_at-set_at p black v w = refl
  set_at-set_at p white v w = refl

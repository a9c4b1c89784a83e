-- ===== src/State/Bitboard/Lines.antt =====
-- The order in which the bits of a ray lie, for each direction of crates/attic-state/src/bitboard.rs,
-- checked on all squares; and the lane that holds a ray along a file.
use attic_shogi.Prelude.{
  ℕ, zero, suc, ◌+◌, ◌-◌, ◌<◌, ◌≡◌, ◌∙◌, ap, refl, Bool, true, ◌&&◌, ◌==◌, ltb, if◌then◌else◌,
  Bool-cases, inl, inr, arith,
}
use attic_shogi.Prelude.Bits.{digit}
use attic_shogi.Prelude.Masks.{digit_above}
use attic_shogi.State.Square.{Square, IsSquare, square_count}
use attic_shogi.State.Bitboard.{Bitboard, lane_split}
use attic_shogi.State.Bitboard.Laws.{member, IsCanonical}
use attic_shogi.State.Bitboard.Raw.{raw-from_raw}
use attic_shogi.State.Bitboard.Rays.{ray, ray_bits}
use attic_shogi.State.Bitboard.Sliders.{part}
use attic_shogi.State.Bitboard.Slide.{bit128, IsWords}
use attic_shogi.State.Bitboard.Reverse.{reversed}
use attic_shogi.State.Bitboard.Walk.{line}
use attic_shogi.State.Bitboard.Cuts.{ascends}

-- The bit of a square in the two lanes: bit 63 is spare.
abbrev pub bit_index : Square → ℕ
bit_index s = if ltb lane_split s then s + 1 else s

-- After a byte reversal.
abbrev pub reversed_index : Square → ℕ
reversed_index s = reversed (bit_index s)

-- Down a file.
abbrev pub from_top : Square → ℕ
from_top s = 80 - s

pub member-eq_bit128 : (a : Bitboard) (s : Square) → member a s ≡ bit128 a (bit_index s)
unfolding member bit128
member-eq_bit128 a s =
    ground (arith, ap (digit a.p1) (let e : s + 1 - 64 ≡ s - 63 = omega arith in e))

-- The square of a bit of a set whose spare bits are clear.
pub square_of_bit :
    (a : Bitboard) (q : ℕ)
    → IsCanonical a
    → bit128 a q ≡ 1
    → (u : Square) × IsSquare u × (bit_index u ≡ q) × (member a u ≡ 1)
unfolding bit128
square_of_bit a q c e = elim (Bool-cases (ltb q 64)) [
  | inl first ↦
      let low : q < 63 = ground (arith, first, digit_above 63 a.p0 q c.lane0) in
      (
        q,
        omega arith,
        ground arith,
        member-eq_bit128 a q ∙ ap (bit128 a) (let i : bit_index q ≡ q = ground arith in i) ∙ e,
      )
  | inr second ↦
      let low : q - 64 < 18 = ground (arith, second, digit_above 18 a.p1 (q - 64) c.lane1) in
      let back : bit_index (q - 1) ≡ q = ground (arith, second) in
      (q - 1, ground (arith, second), back, member-eq_bit128 a (q - 1) ∙ ap (bit128 a) back ∙ e)
]

pub ray-IsCanonical : (d : ℕ) (s : Square) → IsCanonical (ray d s)
unfolding ray
ray-IsCanonical d s = (raw-from_raw (ray_bits d s)).0

pub ray-IsWords : (d : ℕ) (s : Square) → IsWords (ray d s)
ray-IsWords d s =
    let c = ray-IsCanonical d s in
    record { lane0 = omega (arith, c.lane0); lane1 = omega (arith, c.lane1) }

unfoldable pub all_below : ℕ → (ℕ → Bool) → Bool
all_below zero p = true
all_below (suc n) p = p n && all_below n p

pub all_below-lt : (n : ℕ) (p : ℕ → Bool) (x : ℕ) → all_below n p ≡ true → x < n → p x ≡ true
unfolding all_below
all_below-lt zero p x h l = absurd (omega arith)
all_below-lt (suc n) p x h l = ground (arith, all_below-lt n p x)

-- Every line of a direction runs in an order.
abbrev lines_ascend : (Square → ℕ) → ℕ → Bool
lines_ascend f d = all_below square_count (λ s. ascends f (line d s))

ascending_lines :
    (lines_ascend from_top 0 ≡ true)
    × (lines_ascend bit_index 1 ≡ true)
    × (lines_ascend bit_index 2 ≡ true)
    × (lines_ascend reversed_index 3 ≡ true)
    × (lines_ascend bit_index 4 ≡ true)
    × (lines_ascend reversed_index 5 ≡ true)
    × (lines_ascend bit_index 6 ≡ true)
    × (lines_ascend reversed_index 7 ≡ true)
unfolding all_below line
ascending_lines = (refl, refl, refl, refl, refl, refl, refl, refl)

module _ (s : Square) (h : IsSquare s) where
  at_square : (f : Square → ℕ) (d : ℕ) → lines_ascend f d ≡ true → ascends f (line d s) ≡ true
  at_square f d e = all_below-lt square_count (λ x. ascends f (line d x)) s e h

  pub ascends_0 : ascends from_top (line 0 s) ≡ true
  ascends_0 = at_square from_top 0 ascending_lines.0

  pub ascends_1 : ascends bit_index (line 1 s) ≡ true
  ascends_1 = at_square bit_index 1 ascending_lines.1

  pub ascends_2 : ascends bit_index (line 2 s) ≡ true
  ascends_2 = at_square bit_index 2 ascending_lines.2

  pub ascends_3 : ascends reversed_index (line 3 s) ≡ true
  ascends_3 = at_square reversed_index 3 ascending_lines.3

  pub ascends_4 : ascends bit_index (line 4 s) ≡ true
  ascends_4 = at_square bit_index 4 ascending_lines.4

  pub ascends_5 : ascends reversed_index (line 5 s) ≡ true
  ascends_5 = at_square reversed_index 5 ascending_lines.5

  pub ascends_6 : ascends bit_index (line 6 s) ≡ true
  ascends_6 = at_square bit_index 6 ascending_lines.6

  pub ascends_7 : ascends reversed_index (line 7 s) ≡ true
  ascends_7 = at_square reversed_index 7 ascending_lines.7

-- The lane off the file of a square is empty in its two rays along the file.
abbrev off_lane : ℕ → Square → ℕ
off_lane d s = if part s == 0 then (ray d s).p1 else (ray d s).p0

file_lanes :
    (all_below square_count (λ s. off_lane 0 s == 0) ≡ true)
    × (all_below square_count (λ s. off_lane 1 s == 0) ≡ true)
unfolding all_below ray
file_lanes = (refl, refl)

pub off_lane_0 : (s : Square) → IsSquare s → off_lane 0 s ≡ 0
off_lane_0 s h = ground (arith, all_below-lt square_count (λ x. off_lane 0 x == 0) s file_lanes.0 h)

pub off_lane_1 : (s : Square) → IsSquare s → off_lane 1 s ≡ 0
off_lane_1 s h = ground (arith, all_below-lt square_count (λ x. off_lane 1 x == 0) s file_lanes.1 h)

-- ===== src/State/Bitboard/Files.antt =====
-- The parts of the sliders along a file, crates/attic-state/src/bitboard.rs: the form with one
-- decrement is a slide of the lane, and the form with a shift cuts the other way.
use attic_shogi.Prelude.{
  ℕ, ◌+◌, ◌-◌, ◌≡◌, ◌∙◌, ap, sym, true, false, ltb, if◌then◌else◌, Bool-cases, inl, inr, bit_and,
  bit_xor, List, arith,
}
use attic_shogi.Prelude.Bits.{digit, digit-zero, bit_and-zero}
use attic_shogi.Prelude.Masks.{digit_above}
use attic_shogi.Prelude.Xor.{xor_comm}
use attic_shogi.State.Square.{Square, IsSquare}
use attic_shogi.State.Bitboard.{Bitboard}
use attic_shogi.State.Bitboard.Laws.{member, IsCanonical}
use attic_shogi.State.Bitboard.Rays.{ray}
use attic_shogi.State.Bitboard.Sliders.{part, lane, only_lane, sub64, is_zero, file_up, file_down}
use attic_shogi.State.Bitboard.Slide.{slide}
use attic_shogi.State.Bitboard.Down.{file_down-open, file_down-shut, file_down-mask}
use attic_shogi.State.Bitboard.Walk.{line, is_in, is_in-IsSquare, member-ray}
use attic_shogi.State.Bitboard.Cuts.{Cuts}
use attic_shogi.State.Bitboard.Lines.{from_top, ray-IsCanonical, off_lane_0, off_lane_1}

file_up-slide :
    (occ_lane mask : ℕ)
    → file_up occ_lane mask
      ≡ bit_and (bit_xor (sub64 (bit_and occ_lane mask) 1) (bit_and occ_lane mask)) mask
unfolding file_up
file_up-slide occ_lane mask =
    ap (λ x. bit_and x mask) (xor_comm (bit_and occ_lane mask) (sub64 (bit_and occ_lane mask) 1))

slide_low :
    (occ m : Bitboard) → m.p1 ≡ 0 → record { p0 = file_up occ.p0 m.p0; p1 = 0 } ≡ slide occ m
unfolding slide
slide_low occ m e = λ i. record {
  p0 = file_up-slide occ.p0 m.p0 i;
  p1 = sym (ap (bit_and high) e ∙ bit_and-zero high) i;
}
  where
    high : ℕ
    high =
        bit_xor (sub64 (bit_and occ.p1 m.p1) (is_zero (bit_and occ.p0 m.p0))) (bit_and occ.p1 m.p1)

slide_high :
    (occ m : Bitboard) → m.p0 ≡ 0 → record { p0 = 0; p1 = file_up occ.p1 m.p1 } ≡ slide occ m
unfolding slide
slide_high occ m e = λ i. record {
  p0 = sym (ap (bit_and low) e ∙ bit_and-zero low) i;
  p1 = (file_up-slide occ.p1 m.p1 ∙ ap borrowed (sym none_low)) i;
}
  where
    low : ℕ
    low = bit_xor (sub64 (bit_and occ.p0 m.p0) 1) (bit_and occ.p0 m.p0)

    none_low : is_zero (bit_and occ.p0 m.p0) ≡ 1
    none_low = ap (λ x. is_zero (bit_and occ.p0 x)) e ∙ ap is_zero (bit_and-zero occ.p0)

    borrowed : ℕ → ℕ
    borrowed b = bit_and (bit_xor (sub64 (bit_and occ.p1 m.p1) b) (bit_and occ.p1 m.p1)) m.p1

-- In the lane of the square, the form with one decrement is the slide of the ray.
pub file_up-eq_slide :
    (s : Square) (occ : Bitboard)
    → IsSquare s
    → only_lane (part s) (file_up (lane occ (part s)) (lane (ray 1 s) (part s)))
      ≡ slide occ (ray 1 s)
file_up-eq_slide s occ h = elim (Bool-cases (ltb 62 s)) [
  | inl second ↦ rw second (slide_high occ (ray 1 s) (ground (arith, second, off_lane_1 s h)))
  | inr first ↦ rw first (slide_low occ (ray 1 s) (ground (arith, first, off_lane_1 s h)))
]

-- The form with a shift, in the lane of the ray.
module _ (occ m : Bitboard) (ts : List Square) (canonical : IsCanonical m)
    (holds : (t : Square) → IsSquare t → member m t ≡ (if is_in t ts then 1 else 0))
    (on_squares : (t : Square) → is_in t ts ≡ true → IsSquare t) where
  down_low :
      m.p1 ≡ 0 → Cuts from_top occ ts (member (record { p0 = file_down occ.p0 m.p0; p1 = 0 }))
  unfolding member
  down_low empty = record {
    open_ = λ t h e free.
        let here = lies_low t e in
        rw here (
          file_down-open occ.p0 m.p0 t (ground (arith, here))
            (λ q l p d. ground (arith, free q, holds q, digit_above 63 m.p0 q canonical.lane0))
          ∙ ground (arith, here, holds t h));
    shut = λ t u h e l o.
        let there = lies_low u e in
        let here : ltb 62 t ≡ false = ground (arith, there) in
        rw here (
          file_down-shut occ.p0 m.p0 t (ground (arith, here)) u (omega arith)
            (ground (arith, there)) (ground (arith, there, holds u (on_squares u e)))
            (ground (arith, there)));
    off = λ t h e. elim (Bool-cases (ltb 62 t)) [
      | inl second ↦ rw second (digit-zero (t - 63))
      | inr first ↦
          rw first (
            file_down-mask occ.p0 m.p0 t (ground (arith, first)) (ground (arith, first, holds t h)))
    ];
  }
    where
      lies_low : (t : Square) → is_in t ts ≡ true → ltb 62 t ≡ false
      lies_low t e =
          ground
            (arith, holds t (on_squares t e), ap (λ x. digit x (t - 63)) empty, digit-zero (t - 63))

  down_high :
      m.p0 ≡ 0 → Cuts from_top occ ts (member (record { p0 = 0; p1 = file_down occ.p1 m.p1 }))
  unfolding member
  down_high empty = record {
    open_ = λ t h e free.
        let here = lies_high t e in
        rw here (
          file_down-open occ.p1 m.p1 (t - 63) (ground (arith, here)) (λ q l p d.
            ground
              (arith, here, free (q + 63), holds (q + 63), digit_above 18 m.p1 q canonical.lane1))
          ∙ ground (arith, here, holds t h));
    shut = λ t u h e l o.
        let there = lies_high u e in
        elim (Bool-cases (ltb 62 t)) [
          | inl here ↦ rw here (
              file_down-shut occ.p1 m.p1 (t - 63) (ground (arith, here)) (u - 63)
                (ground (arith, here)) (omega (arith, on_squares u e))
                (ground (arith, there, holds u (on_squares u e))) (ground (arith, there)))
          | inr first ↦ rw first (digit-zero t)
        ];
    off = λ t h e. elim (Bool-cases (ltb 62 t)) [
      | inl second ↦ rw second (
          file_down-mask occ.p1 m.p1 (t - 63) (ground (arith, second))
            (ground (arith, second, holds t h)))
      | inr first ↦ rw first (digit-zero t)
    ];
  }
    where
      lies_high : (t : Square) → is_in t ts ≡ true → ltb 62 t ≡ true
      lies_high t e =
          ground (arith, holds t (on_squares t e), ap (λ x. digit x t) empty, digit-zero t)

-- In the lane of the square, the form with a shift cuts the ray down the file.
pub file_down-Cuts :
    (s : Square) (occ : Bitboard)
    → IsSquare s
    → Cuts from_top occ
        (line 0 s)
        (member (only_lane (part s) (file_down (lane occ (part s)) (lane (ray 0 s) (part s)))))
file_down-Cuts s occ h =
    let canonical = ray-IsCanonical 0 s in
    elim (Bool-cases (ltb 62 s)) [
      | inl second ↦ rw second (
          down_high occ (ray 0 s) (line 0 s) canonical (member-ray 0 s) (is_in-IsSquare 0 s)
            (ground (arith, second, off_lane_0 s h)))
      | inr first ↦ rw first (
          down_low occ (ray 0 s) (line 0 s) canonical (member-ray 0 s) (is_in-IsSquare 0 s)
            (ground (arith, first, off_lane_0 s h)))
    ]

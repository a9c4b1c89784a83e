-- ===== src/State/Bitboard/Slide.antt =====
-- One slide of crates/attic-state/src/bitboard.rs: the lowest occupied bit of a mask and the bits of
-- the mask below it, by a decrement of the two lanes as one word of 128 bits.
use attic_shogi.Prelude.{
  ℕ, zero, suc, ◌+◌, ◌-◌, ◌/◌, ◌%◌, ◌^◌, ◌<◌, min, ◌≡◌, ◌≢◌, ap, sym, ◌∙◌, bit_and, bit_xor, Bool,
  true, false, ◌&&◌, ◌==◌, ltb, if◌then◌else◌, Bool-cases, inl, inr, arith,
}
use attic_shogi.Prelude.Bits.{
  digit, digit-lt, digit-zero, digit-bit_and, digit-bit_xor, bit_and_step, two_pow_suc,
  eq_of_digits,
}
use attic_shogi.Prelude.Masks.{digit_above}
use attic_shogi.Prelude.Borrow.{pred, digit-pred, low_clear, low_set}
use attic_shogi.State.Bitboard.{Bitboard, inter}
use attic_shogi.State.Bitboard.Sliders.{word, sub64, is_zero}

-- Bit `p` of the two lanes.
unfoldable pub bit128 : Bitboard → ℕ → ℕ
bit128 a p = if ltb p 64 then digit a.p0 p else digit a.p1 (p - 64)

pub bit128-lt : (a : Bitboard) (p : ℕ) → bit128 a p < 2
unfolding bit128
bit128-lt a p = ground (arith, digit-lt a.p0 p, digit-lt a.p1 (p - 64))

-- Two 64-bit lanes.
pub record IsWords (a : Bitboard) : Type 0 where
  pub lane0 : a.p0 < word
  pub lane1 : a.p1 < word

unfoldable pub slide : (occ mask : Bitboard) → Bitboard
slide occ mask =
    let lo = bit_and occ.p0 mask.p0 in
    let hi = bit_and occ.p1 mask.p1 in
    record {
      p0 = bit_and (bit_xor (sub64 lo 1) lo) mask.p0;
      p1 = bit_and (bit_xor (sub64 hi (is_zero lo)) hi) mask.p1;
    }

pub and-lt : (w a b : ℕ) → b < 2 ^ w → bit_and a b < 2 ^ w
and-lt zero a b h = omega (
  arith,
  low_zero 1 (bit_and a b) (λ k. ground (arith, digit-bit_and a b k, digit_above 0 b k h)),
)
  where
    low_zero : (n x : ℕ) → ((k : ℕ) → digit x k ≡ 0) → x ≡ 0
    low_zero n x all = eq_of_digits x 0 (λ k. all k ∙ sym (digit-zero k))
and-lt (suc w) a b h = omega (
  arith,
  bit_and_step a b,
  two_pow_suc w,
  and-lt w (a / 2) (b / 2) (omega (arith, two_pow_suc w)),
)

sub-one : (x : ℕ) → x < word → sub64 x 1 ≡ pred 64 x
sub-one x h = ground arith

sub-zero : (x : ℕ) → x < word → sub64 x 0 ≡ x
sub-zero x h = omega arith

-- One lane, borrowed from.
lane_digit :
    (x m j : ℕ)
    → x < word
    → j < 64
    → digit (bit_and (bit_xor (sub64 x 1) x) m) j ≡ (if x % 2 ^ j == 0 then digit m j else 0)
lane_digit x m j h p = ground (
  arith,
  digit-bit_and (bit_xor (sub64 x 1) x) m j,
  digit-bit_xor (sub64 x 1) x j,
  ap (λ y. digit y j) (sub-one x h),
  digit-pred 64 x j p,
  digit-lt m j,
)

-- One lane, not borrowed from.
lane_kept : (x m j : ℕ) → x < word → digit (bit_and (bit_xor (sub64 x 0) x) m) j ≡ 0
lane_kept x m j h = ground (
  arith,
  digit-bit_and (bit_xor (sub64 x 0) x) m j,
  digit-bit_xor (sub64 x 0) x j,
  ap (λ y. digit y j) (sub-zero x h),
  digit-lt x j,
)

-- No bit below `p`.
abbrev clear_below : Bitboard → ℕ → Bool
clear_below a p = if ltb p 64 then a.p0 % 2 ^ p == 0 else a.p0 == 0 && a.p1 % 2 ^ (p - 64) == 0

slide_bit :
    (occ m : Bitboard) (p : ℕ)
    → IsWords m
    → p < 128
    → bit128 (slide occ m) p ≡ (if clear_below (inter occ m) p then bit128 m p else 0)
unfolding bit128 slide inter
slide_bit occ m p v h =
    let lo = bit_and occ.p0 m.p0 in
    let hi = bit_and occ.p1 m.p1 in
    elim (Bool-cases (ltb p 64)) [
      | inl first ↦ rw first (lane_digit lo m.p0 p (and-lt 64 occ.p0 m.p0 v.lane0) (ground arith))
      | inr second ↦ rw second (elim (Bool-cases (lo == 0)) [
        | inl none_low ↦
            rw none_low (lane_digit hi m.p1 (p - 64) (and-lt 64 occ.p1 m.p1 v.lane1) (ground arith))
        | inr some_low ↦ rw some_low (lane_kept hi m.p1 (p - 64) (and-lt 64 occ.p1 m.p1 v.lane1))
      ])
    ]

bit128-inter : (a b : Bitboard) (p : ℕ) → bit128 (inter a b) p ≡ min (bit128 a p) (bit128 b p)
unfolding bit128 inter
bit128-inter a b p = ground (arith, digit-bit_and a.p0 b.p0 p, digit-bit_and a.p1 b.p1 (p - 64))

clear_below_all :
    (a : Bitboard) (p : ℕ) → IsWords a → ((q : ℕ) → q < p → bit128 a q ≡ 0) → clear_below a p ≡ true
unfolding bit128
clear_below_all a p v h = elim (Bool-cases (ltb p 64)) [
  | inl first ↦ rw first (ground (arith, low_clear a.p0 p (λ q l. ground (arith, h q))))
  | inr second ↦
      let none_low : a.p0 ≡ 0 =
        eq_of_digits a.p0 0 λ k. ground (arith, h k, digit_above 64 a.p0 k v.lane0, digit-zero k) in
      rw second
        (ground (arith, none_low, low_clear a.p1 (p - 64) (λ q l. ground (arith, h (q + 64)))))
]

not_clear_below : (a : Bitboard) (p q : ℕ) → q < p → bit128 a q ≡ 1 → clear_below a p ≡ false
unfolding bit128
not_clear_below a p q l h = elim (Bool-cases (ltb p 64)) [
  | inl first ↦ rw first (ground (arith, low_set a.p0 p q l))
  | inr second ↦ rw second (elim (Bool-cases (ltb q 64)) [
    | inl low ↦
        let some_low : a.p0 ≢ 0 = λ e. ground (arith, ap (λ x. digit x q) e, digit-zero q) in
        ground arith
    | inr high ↦ ground (arith, low_set a.p1 (p - 64) (q - 64) (ground arith))
  ])
]

module _ (occ m : Bitboard) (v : IsWords m) (p : ℕ) (h : p < 128) where
  inter-IsWords : IsWords (inter occ m)
  unfolding inter
  inter-IsWords = record {
    lane0 = and-lt 64 occ.p0 m.p0 v.lane0;
    lane1 = and-lt 64 occ.p1 m.p1 v.lane1;
  }

  -- A bit of the mask with no occupied bit of the mask below it is kept.
  pub slide-open :
      ((q : ℕ) → q < p → bit128 m q ≡ 1 → bit128 occ q ≡ 0) → bit128 (slide occ m) p ≡ bit128 m p
  slide-open free =
      slide_bit occ m p v h
      ∙ ap (λ (b : Bool). if b then bit128 m p else 0)
          (clear_below_all (inter occ m) p inter-IsWords
            (λ q l. ground (arith, free q l, bit128-inter occ m q, bit128-lt m q)))

  -- A bit above an occupied bit of the mask is cleared.
  pub slide-shut : (q : ℕ) → q < p → bit128 m q ≡ 1 → bit128 occ q ≡ 1 → bit128 (slide occ m) p ≡ 0
  slide-shut q l e o =
      slide_bit occ m p v h
      ∙ ap (λ (b : Bool). if b then bit128 m p else 0)
          (not_clear_below (inter occ m) p q l (omega (arith, bit128-inter occ m q)))

  -- No bit outside the mask is set.
  pub slide-mask : bit128 m p ≡ 0 → bit128 (slide occ m) p ≡ 0
  slide-mask e = ground (arith, slide_bit occ m p v h)

-- ===== src/State/Bitboard/Down.antt =====
-- `file_down` of crates/attic-state/src/bitboard.rs: the highest occupied bit of a mask and the bits of
-- the mask above it, by a shift to that bit.
use attic_shogi.Prelude.{
  ℕ, zero, suc, ◌-◌, ◌*◌, ◌%◌, ◌^◌, ◌≤◌, ◌<◌, ◌≡◌, ◌≢◌, ◌∙◌, bit_and, bit_or, ◌==◌, ltb,
  if◌then◌else◌, Bool-cases, ℕ_discrete, inl, inr, arith,
}
use native.Mathlib.Nat.{one-le-pow}
use attic_shogi.Prelude.Bits.{digit, digit-lt, digit-zero, digit-bit_and, digit-bit_or}
use attic_shogi.Prelude.Masks.{digit_above, digit-complement, digit-two_pow, two_pow-lt}
use attic_shogi.State.Bitboard.Sliders.{word, leading_zeros, msb64, file_down}

-- The digits above the highest that is set are 0.
leading_zeros-clear : (n x k : ℕ) → n - leading_zeros n x ≤ k → k < n → digit x k ≡ 0
unfolding leading_zeros
leading_zeros-clear zero x k h l = absurd (omega arith)
leading_zeros-clear (suc n) x k h l = elim (ℕ_discrete k n) [
  | yes top ↦ rw top (ground arith)
  | no below ↦ ground (arith, leading_zeros-clear n x k)
]

leading_zeros-set : (n x : ℕ) → leading_zeros n x < n → digit x (n - 1 - leading_zeros n x) ≢ 0
unfolding leading_zeros
leading_zeros-set zero x h = absurd (omega arith)
leading_zeros-set (suc n) x h = elim (Bool-cases (digit x n == 0)) [
  | inl off ↦
      let there : suc n - 1 - suc (leading_zeros n x) ≡ n - 1 - leading_zeros n x = omega arith in
      rw (leading_zeros, off, there) (leading_zeros-set n x (ground (arith, off)))
  | inr on ↦
      let there : suc n - 1 - 0 ≡ n = omega arith in
      rw (leading_zeros, on, there) (λ e. ground (arith, on))
]

-- The highest set bit of a 64-bit word in which bit 0 is set.
module _ (x : ℕ) (odd : digit x 0 ≡ 1) where
  some_set : leading_zeros 64 x < 64
  some_set = elim (Bool-cases (ltb (leading_zeros 64 x) 64)) [
    | inl h ↦ ground arith
    | inr h ↦ absurd (omega (arith, leading_zeros-clear 64 x 0 (ground arith) (omega arith)))
  ]

  msb64-set : digit x (msb64 x) ≢ 0
  unfolding msb64
  msb64-set e = leading_zeros-set 64 x some_set e

  msb64-top : (k : ℕ) → msb64 x < k → k < 64 → digit x k ≡ 0
  unfolding msb64
  msb64-top k h l = leading_zeros-clear 64 x k (omega (arith, some_set)) l

  msb64-lt : msb64 x < 64
  unfolding msb64
  msb64-lt = omega arith

-- `(!0u64) << s`.
digit-filled :
    (s j : ℕ) → s < 64 → j < 64 → digit ((word - 1) * 2 ^ s % word) j ≡ (if ltb j s then 0 else 1)
digit-filled s j h l =
    let small : 2 ^ s < word = two_pow-lt s 64 h in
    let e : (word - 1) * 2 ^ s % word ≡ word - 1 - (2 ^ s - 1) = omega (arith, one-le-pow s 2) in
    rw e (
      ground (
        arith,
        digit-complement 64 (2 ^ s - 1) j (omega arith) l,
        digit-complement s 0 j (omega (arith, one-le-pow s 2)),
        digit_above s (2 ^ s - 1) j (omega (arith, one-le-pow s 2)),
        digit-zero j,
      ))

module _ (occ_lane se j : ℕ) (h : j < 64) where
  abbrev mocc : ℕ
  mocc = bit_and se occ_lane

  abbrev seed : ℕ
  seed = bit_or mocc 1

  odd : digit seed 0 ≡ 1
  odd = ground (arith, digit-bit_or mocc 1 0, digit-two_pow 0 0, digit-lt mocc 0)

  digit-seed : (k : ℕ) → 0 < k → digit seed k ≡ digit mocc k
  digit-seed k p = ground (arith, digit-bit_or mocc 1 k, digit-two_pow 0 k)

  digit-file_down : digit (file_down occ_lane se) j ≡ (if ltb j (msb64 seed) then 0 else digit se j)
  unfolding file_down
  digit-file_down = ground (
    arith,
    digit-bit_and ((word - 1) * 2 ^ msb64 seed % word) se j,
    digit-filled (msb64 seed) j (msb64-lt seed odd) h,
    digit-lt se j,
  )

  -- A bit of the mask with no occupied bit of the mask above it is kept.
  pub file_down-open :
      ((q : ℕ) → j < q → q < 64 → digit se q ≡ 1 → digit occ_lane q ≡ 0)
      → digit (file_down occ_lane se) j ≡ digit se j
  file_down-open free = elim (Bool-cases (ltb j (msb64 seed))) [
    | inl above ↦ absurd (
        ground (
          arith,
          msb64-set seed odd,
          msb64-lt seed odd,
          digit-seed (msb64 seed),
          digit-bit_and se occ_lane (msb64 seed),
          digit-lt se (msb64 seed),
          digit-lt occ_lane (msb64 seed),
          free (msb64 seed),
        ))
    | inr fits ↦ digit-file_down ∙ rw fits
  ]

  -- A bit below an occupied bit of the mask is cleared.
  pub file_down-shut :
      (q : ℕ)
      → j < q
      → q < 64
      → digit se q ≡ 1
      → digit occ_lane q ≡ 1
      → digit (file_down occ_lane se) j ≡ 0
  file_down-shut q l p e o = elim (Bool-cases (ltb j (msb64 seed))) [
    | inl above ↦ digit-file_down ∙ rw above
    | inr fits ↦
        absurd (ground (arith, msb64-top seed odd q, digit-seed q, digit-bit_and se occ_lane q))
  ]

  pub file_down-mask : digit se j ≡ 0 → digit (file_down occ_lane se) j ≡ 0
  file_down-mask e = ground (arith, digit-file_down)

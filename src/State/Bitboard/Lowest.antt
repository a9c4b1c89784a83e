-- ===== src/State/Bitboard/Lowest.antt =====
-- The set bits of a word from the lowest on, as the iterator of crates/attic-state/src/bitboard.rs takes
-- them off: `x & (x - 1)` clears the lowest and no other.
use attic_shogi.Prelude.{
  ℕ, zero, suc, ◌+◌, ◌-◌, ◌^◌, ◌≤◌, ◌<◌, ◌≡◌, ◌≢◌, ◌∙◌, ap, sym, refl, bit_and, ◌==◌, if◌then◌else◌,
  ℕ_discrete, List, [], ◌∷◌, length, arith,
}
use attic_shogi.Prelude.Bits.{digit, digit-lt, digit-zero, digit-bit_and, eq_of_digits}
use attic_shogi.Prelude.Masks.{digit_above}
use attic_shogi.Prelude.Borrow.{digit-pred, low_clear, low_set}
use attic_shogi.State.Bitboard.Iter.{zeros_from, ones_from}

-- Of `n` bits from bit `k` on, the indices of those that are set, counted from `base`.
unfoldable pub set_bits : (n k base x : ℕ) → List ℕ
unfolding digit
set_bits zero k base x = []
set_bits (suc n) k base x =
    let rest = set_bits n (suc k) base x in if digit x k == 0 then rest else (k + base) ∷ rest

set_bits_cong :
    (n k base x y : ℕ)
    → ((j : ℕ) → k ≤ j → j < k + n → digit x j ≡ digit y j)
    → set_bits n k base x ≡ set_bits n k base y
unfolding set_bits
set_bits_cong zero k base x y h = refl
set_bits_cong (suc n) k base x y h =
    rw
      (
        h k (omega arith) (omega arith),
        set_bits_cong n (suc k) base x y (λ j p q. h j (omega arith) (omega arith)),
      )
      refl

-- Clear bits at the start and at the end give nothing.
set_bits_skip :
    (n k base x : ℕ)
    → n + k ≡ 64
    → ((i : ℕ) → i < k → digit x i ≡ 0)
    → set_bits 64 0 base x ≡ set_bits n k base x
unfolding set_bits
set_bits_skip n zero base x e low =
    ap (λ m. set_bits m 0 base x) (let all : 64 ≡ n = omega arith in all)
set_bits_skip n (suc k) base x e low =
    set_bits_skip (suc n) k base x (omega arith) (λ i h. low i (omega arith))
    ∙ rw (set_bits, low k (omega arith)) refl

pub set_bits_trim :
    (m n k base x : ℕ)
    → n ≤ m
    → ((j : ℕ) → k + n ≤ j → digit x j ≡ 0)
    → set_bits m k base x ≡ set_bits n k base x
unfolding set_bits
set_bits_trim zero zero k base x h high = refl
set_bits_trim zero (suc n) k base x h high = absurd (omega arith)
set_bits_trim (suc m) zero k base x h high =
    rw (high k (omega arith))
      (set_bits_trim m zero (suc k) base x (omega arith) (λ j p. high j (omega arith)))
set_bits_trim (suc m) (suc n) k base x h high =
    rw (set_bits_trim m n (suc k) base x (omega arith) (λ j p. high j (omega arith))) refl

pub length-set_bits : (n k base x : ℕ) → length (set_bits n k base x) ≡ ones_from n k x
unfolding set_bits ones_from
length-set_bits zero k base x = refl
length-set_bits (suc n) k base x = ground (arith, length-set_bits n (suc k) base x, digit-lt x k)

-- Taking the lowest set bit off a word.
abbrev pub drop_lowest : ℕ → ℕ
drop_lowest x = bit_and x (x - 1)

-- With its lowest set bit at `k`, a word keeps every other bit.
module _ (x k : ℕ) (low : (i : ℕ) → i < k → digit x i ≡ 0) (here : digit x k ≡ 1) where
  not_zero : x ≢ 0
  not_zero e = omega (arith, ap (λ y. digit y k) e, digit-zero k)

  drop_low : (i : ℕ) → i < suc k → k < 64 → digit (drop_lowest x) i ≡ 0
  drop_low i l h = ground (
    arith,
    not_zero,
    low i,
    digit-bit_and x (x - 1) i,
    digit-pred 64 x k,
    low_clear x k low,
    digit-lt (x - 1) k,
  )

  drop_high : (j : ℕ) → k < j → j < 64 → digit (drop_lowest x) j ≡ digit x j
  drop_high j l h = ground (
    arith,
    not_zero,
    digit-bit_and x (x - 1) j,
    digit-pred 64 x j,
    low_set x j k,
    digit-lt (x - 1) j,
    digit-lt x j,
  )

-- The lowest set bit comes first, and the others follow.
pub lowest_first :
    (n k base x : ℕ)
    → n + k ≡ 64
    → ((i : ℕ) → i < k → digit x i ≡ 0)
    → x ≢ 0
    → x < 2 ^ 64
    → (set_bits n k base x ≡ (zeros_from n k x + k + base) ∷ set_bits 64 0 base (drop_lowest x))
      × (digit x (zeros_from n k x + k) ≡ 1)
unfolding set_bits zeros_from
lowest_first zero k base x e low some_bit small =
    absurd (
      some_bit
        (eq_of_digits x 0 λ j. ground (arith, low j, digit_above 64 x j small, digit-zero j)))
lowest_first (suc n) k base x e low some_bit small = elim (ℕ_discrete (digit x k) 0) [
  | yes off ↦
      let (rest, bit) =
        lowest_first n (suc k) base x (omega arith)
          (λ i h. elim (ℕ_discrete i k) [ yes top ↦ rw top off | no below ↦ low i (omega arith) ])
          some_bit small in
      let there : zeros_from n (suc k) x + suc k ≡ suc (zeros_from n (suc k) x) + k = omega arith in
      rw off (
        rest ∙ ap (λ i. (i + base) ∷ set_bits 64 0 base (drop_lowest x)) there,
        ap (digit x) (sym there) ∙ bit,
      )
  | no on ↦
      let bit : digit x k ≡ 1 = omega (arith, digit-lt x k) in
      let start : 0 + k ≡ k = omega arith in
      rw (set_bits, zeros_from, bit, start)
        (
          ap (λ ks. (k + base) ∷ ks)
              (set_bits_cong n (suc k) base x (drop_lowest x)
                  (λ j p q. sym (drop_high x k low bit j (omega arith) (omega arith)))
                ∙ sym (
                    set_bits_skip n (suc k) base (drop_lowest x) (omega arith)
                      (λ i h. drop_low x k low bit i h (omega arith)))),
          bit,
        )
]

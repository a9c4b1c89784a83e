-- ===== src/Prelude/Masks.antt =====
-- Single bits, complements and words of a bounded width, by their digits.
use attic_shogi.Prelude.Tests.{◌==◌, if◌then◌else◌}
use Prim.Native.Nat.{ℕ, zero, suc, ◌-◌, ◌/◌, ◌^◌, ◌≤◌, ◌<◌, bit_and}
use mathlib.Core.Path.{◌≡◌}
use native.Mathlib.Nat.{one-le-pow, pow-suc}
use native.Mathlib.Omega.{arith}
use attic_shogi.Prelude.Bits.{
  digit, digit-lt, digit-zero, digit-bit_and, digit-two_pow_self, digit-two_pow_ne,
}

pub digit-two_pow : (j k : ℕ) → digit (2 ^ j) k ≡ (if j == k then 1 else 0)
digit-two_pow j k = grind (arith, digit-two_pow_self k, digit-two_pow_ne j k)

half_complement : (w x : ℕ) → x < 2 ^ suc w → (2 ^ suc w - 1 - x) / 2 ≡ 2 ^ w - 1 - x / 2
half_complement w x h = omega (arith, pow-suc 2 w)

-- Complementing a word below `2 ^ w` flips its `w` digits.
pub digit-complement : (w x k : ℕ) → x < 2 ^ w → k < w → digit (2 ^ w - 1 - x) k ≡ 1 - digit x k
unfolding digit
digit-complement zero x k p q = absurd (omega arith)
digit-complement (suc w) x zero p q = omega (arith, pow-suc 2 w)
digit-complement (suc w) x (suc k) p q =
    rw (half_complement w x p)
      (digit-complement w (x / 2) k (omega (arith, pow-suc 2 w)) (omega arith))

pub two_pow-lt : (j k : ℕ) → j < k → 2 ^ j < 2 ^ k
two_pow-lt j zero h = absurd (omega arith)
two_pow-lt zero (suc k) h = omega (arith, pow-suc 2 k, one-le-pow k 2 (omega arith))
two_pow-lt (suc j) (suc k) h = omega (arith, pow-suc 2 k, pow-suc 2 j, two_pow-lt j k (omega arith))

pub digit-clear :
    (x j k : ℕ)
    → j < 64
    → k < 64
    → digit (bit_and x (2 ^ 64 - 1 - 2 ^ j)) k ≡ (if j == k then 0 else digit x k)
digit-clear x j k p q = ground (
  arith,
  digit-bit_and x (2 ^ 64 - 1 - 2 ^ j) k,
  digit-complement 64 (2 ^ j) k (two_pow-lt j 64 p) q,
  digit-two_pow j k,
  digit-lt x k,
)

pub digit_above : (w x k : ℕ) → x < 2 ^ w → w ≤ k → digit x k ≡ 0
unfolding digit
digit_above zero x k p q = let e : x ≡ 0 = omega arith in rw e (digit-zero k)
digit_above (suc w) x zero p q = absurd (omega arith)
digit_above (suc w) x (suc k) p q =
    digit_above w (x / 2) k (omega (arith, pow-suc 2 w)) (omega arith)

-- ===== src/Prelude/Borrow.antt =====
-- The digits of remainders, quotients and joined words, and those that change when one is taken off
-- a word: the lowest bit that is set and all below it.
use attic_shogi.Prelude.Tests.{ltb, ◌==◌, if◌then◌else◌}
use Prim.Native.Nat.{ℕ, zero, suc, ◌+◌, ◌-◌, ◌*◌, ◌/◌, ◌%◌, ◌^◌, ◌≤◌, ◌<◌}
use mathlib.Core.Path.{◌≡◌, ap, sym, ◌∙◌}
use mathlib.Core.Logic.{◌≢◌}
use native.Mathlib.Nat.{one-le-pow, div-div-eq-div-mul}
use native.Mathlib.Omega.{arith}
use native.Mathlib.Decide.{ℕ_discrete}
use attic_shogi.Prelude.Bits.{digit, digit-zero, eq_of_digits, two_pow_suc, mod-two_pow_suc}

pub digit-mod : (w x k : ℕ) → digit (x % 2 ^ w) k ≡ (if ltb k w then digit x k else 0)
unfolding digit
digit-mod zero x k = rw (let e : x % 2 ^ 0 ≡ 0 = omega arith in e) (ground (arith, digit-zero k))
digit-mod (suc w) x zero = ground (arith, mod-two_pow_suc x w)
digit-mod (suc w) x (suc k) =
    let half : x % 2 ^ suc w / 2 ≡ x / 2 % 2 ^ w = omega (arith, mod-two_pow_suc x w) in
    rw half (ground (arith, digit-mod w (x / 2) k))

pub digit-div : (w x k : ℕ) → digit (x / 2 ^ w) k ≡ digit x (k + w)
unfolding digit
digit-div zero x k =
    rw (let e : x / 2 ^ 0 ≡ x = omega arith in e)
      (ap (digit x) (let e : k ≡ k + 0 = omega arith in e))
digit-div (suc w) x k =
    let half : x / 2 ^ suc w ≡ x / 2 / 2 ^ w =
      rw (two_pow_suc w) (sym (div-div-eq-div-mul x 2 (2 ^ w))) in
    let later : k + suc w ≡ suc (k + w) = omega arith in rw (half, later) (digit-div w (x / 2) k)

pub digit-join :
    (w a b k : ℕ)
    → b < 2 ^ w
    → digit (a * 2 ^ w + b) k ≡ (if ltb k w then digit b k else digit a (k - w))
digit-join w a b k h =
    let low : (a * 2 ^ w + b) % 2 ^ w ≡ b = grind arith in
    let high : (a * 2 ^ w + b) / 2 ^ w ≡ a = grind arith in
    ground (
      arith,
      digit-mod w (a * 2 ^ w + b) k,
      digit-div w (a * 2 ^ w + b) (k - w),
      ap (λ x. digit x k) low,
      ap (λ x. digit x (k - w)) high,
      ap (digit (a * 2 ^ w + b)) (let e : w ≤ k → k - w + w ≡ k = (λ p. omega arith) in e _),
    )

-- A word whose low digits are clear, and one in which one of them is set.
pub low_clear : (x j : ℕ) → ((i : ℕ) → i < j → digit x i ≡ 0) → x % 2 ^ j ≡ 0
low_clear x j h = eq_of_digits _ _ λ k. ground (arith, h k, digit-mod j x k, digit-zero k)

pub low_set : (x j i : ℕ) → i < j → digit x i ≡ 1 → x % 2 ^ j ≢ 0
low_set x j i h e z = ground (arith, digit-mod j x i, ap (λ y. digit y i) z, digit-zero i)

-- `x - 1` in `w` bits.
abbrev pub pred : ℕ → ℕ → ℕ
pred w x = if x == 0 then 2 ^ w - 1 else x - 1

-- A digit changes when one is taken off if no digit below it is set.
pub digit-pred :
    (w x j : ℕ) → j < w → (digit x j + digit (pred w x) j) % 2 ≡ (if x % 2 ^ j == 0 then 1 else 0)
unfolding digit
digit-pred zero x j h = absurd (omega arith)
digit-pred (suc w) x zero h = ground (arith, two_pow_suc w, one-le-pow w 2 (omega arith))
digit-pred (suc w) x (suc j) h = elim (ℕ_discrete (x % 2) 1) [
  | yes odd ↦
      let half : pred (suc w) x / 2 ≡ x / 2 = ground arith in
      rw half (ground (arith, mod-two_pow_suc x j))
  | no even ↦
      let half : pred (suc w) x / 2 ≡ pred w (x / 2) =
        ground (arith, two_pow_suc w, one-le-pow w 2 (omega arith)) in
      rw half (digit-pred w (x / 2) j (omega arith) ∙ ground (arith, mod-two_pow_suc x j))
]

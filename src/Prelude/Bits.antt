-- ===== src/Prelude/Bits.antt =====
-- The operations on binary digits, digit by digit: `^`, `|` and `&` at one digit, a single bit,
-- and equality of two words by their digits.
use Prim.Native.Nat.{
  ℕ, zero, suc, ◌+◌, ◌-◌, ◌*◌, ◌/◌, ◌%◌, ◌^◌, ◌≤◌, ◌<◌, min, max, differ, digits, bit_and, bit_or,
  bit_xor, bit_and-bitwise, bit_or-bitwise, bit_xor-bitwise,
}
use mathlib.Core.Path.{◌≡◌, refl, ◌∙◌, ap}
use mathlib.Core.Logic.{◌≢◌}
use native.Mathlib.Nat.{pow-suc, one-le-pow, zero-div, div-div-eq-div-mul}
use native.Mathlib.Omega.{arith}

-- The recursion of the native operations needs no more fuel than its first number.
enough_fuel :
    (z : ℕ → ℕ) (f : ℕ → ℕ → ℕ) (n m a b : ℕ) → a ≤ n → a ≤ m → digits z f n a b ≡ digits z f m a b
enough_fuel z f zero zero a b p q = refl
enough_fuel z f zero (suc m) zero b p q = refl
enough_fuel z f zero (suc m) (suc a) b p q = absurd (omega arith)
enough_fuel z f (suc n) zero zero b p q = refl
enough_fuel z f (suc n) zero (suc a) b p q = absurd (omega arith)
enough_fuel z f (suc n) (suc m) zero b p q = refl
enough_fuel z f (suc n) (suc m) (suc a) b p q =
    rw (enough_fuel z f n m (suc a / 2) (b / 2) (omega arith) (omega arith))

differ-mod_two : (a b : ℕ) → differ (a % 2) (b % 2) ≡ (a + b) % 2
differ-mod_two a b = table (a % 2) (b % 2) (omega arith) (omega arith) ∙ omega arith
  where
    table : (x y : ℕ) → x < 2 → y < 2 → differ x y ≡ (x + y) % 2
    table zero y p q = omega arith
    table (suc zero) zero p q = refl
    table (suc zero) (suc zero) p q = refl
    table (suc zero) (suc (suc y)) p q = absurd (omega arith)
    table (suc (suc x)) y p q = absurd (omega arith)

pub bit_xor_step : (a b : ℕ) → bit_xor a b ≡ bit_xor (a / 2) (b / 2) * 2 + (a + b) % 2
bit_xor_step zero b = simp (bit_xor-bitwise, zero-div) (omega arith)
bit_xor_step (suc a) b = omega (
  arith,
  bit_xor-bitwise (suc a) b,
  bit_xor-bitwise (suc a / 2) (b / 2),
  differ-mod_two (suc a) b,
  enough_fuel (λ y. y) differ a (suc a / 2) (suc a / 2) (b / 2) (omega arith) (omega arith),
)

pub bit_or_step : (a b : ℕ) → bit_or a b ≡ bit_or (a / 2) (b / 2) * 2 + max (a % 2) (b % 2)
bit_or_step zero b = simp (bit_or-bitwise, zero-div) (omega arith)
bit_or_step (suc a) b = omega (
  arith,
  bit_or-bitwise (suc a) b,
  bit_or-bitwise (suc a / 2) (b / 2),
  enough_fuel (λ y. y) max a (suc a / 2) (suc a / 2) (b / 2) (omega arith) (omega arith),
)

pub bit_and_step : (a b : ℕ) → bit_and a b ≡ bit_and (a / 2) (b / 2) * 2 + min (a % 2) (b % 2)
bit_and_step zero b = simp (bit_and-bitwise, zero-div) (omega arith)
bit_and_step (suc a) b = omega (
  arith,
  bit_and-bitwise (suc a) b,
  bit_and-bitwise (suc a / 2) (b / 2),
  enough_fuel (λ y. zero) min a (suc a / 2) (suc a / 2) (b / 2) (omega arith) (omega arith),
)

-- Bit `k` of `a`.
unfoldable pub digit : ℕ → ℕ → ℕ
digit a zero = a % 2
digit a (suc k) = digit (a / 2) k

pub digit-lt : (a k : ℕ) → digit a k < 2
unfolding digit
digit-lt a zero = omega arith
digit-lt a (suc k) = digit-lt (a / 2) k

pub digit-bit_xor : (a b k : ℕ) → digit (bit_xor a b) k ≡ (digit a k + digit b k) % 2
unfolding digit
digit-bit_xor a b zero = omega (arith, bit_xor_step a b)
digit-bit_xor a b (suc k) =
    let half : bit_xor a b / 2 ≡ bit_xor (a / 2) (b / 2) = omega (arith, bit_xor_step a b) in
    rw half (digit-bit_xor (a / 2) (b / 2) k)

pub digit-bit_or : (a b k : ℕ) → digit (bit_or a b) k ≡ max (digit a k) (digit b k)
unfolding digit
digit-bit_or a b zero = omega (arith, bit_or_step a b)
digit-bit_or a b (suc k) =
    let half : bit_or a b / 2 ≡ bit_or (a / 2) (b / 2) = omega (arith, bit_or_step a b) in
    rw half (digit-bit_or (a / 2) (b / 2) k)

pub digit-bit_and : (a b k : ℕ) → digit (bit_and a b) k ≡ min (digit a k) (digit b k)
unfolding digit
digit-bit_and a b zero = omega (arith, bit_and_step a b)
digit-bit_and a b (suc k) =
    let half : bit_and a b / 2 ≡ bit_and (a / 2) (b / 2) = omega (arith, bit_and_step a b) in
    rw half (digit-bit_and (a / 2) (b / 2) k)

pub digit-zero : (k : ℕ) → digit 0 k ≡ 0
unfolding digit
digit-zero zero = refl
digit-zero (suc k) = digit-zero k

half_two_pow : (j : ℕ) → 2 ^ suc j / 2 ≡ 2 ^ j
half_two_pow j = omega (arith, pow-suc 2 j)

pub digit-two_pow_self : (k : ℕ) → digit (2 ^ k) k ≡ 1
unfolding digit
digit-two_pow_self zero = refl
digit-two_pow_self (suc k) = rw half_two_pow (digit-two_pow_self k)

pub digit-two_pow_ne : (j k : ℕ) → j ≢ k → digit (2 ^ j) k ≡ 0
unfolding digit
digit-two_pow_ne zero zero h = absurd (h refl)
digit-two_pow_ne zero (suc k) h = digit-zero k
digit-two_pow_ne (suc j) zero h = omega (arith, pow-suc 2 j)
digit-two_pow_ne (suc j) (suc k) h = rw half_two_pow (digit-two_pow_ne j k (λ e. h (ap suc e)))

-- Words with the same digits are equal.
eq_of_digits_below : (n a b : ℕ) → a ≤ n → b ≤ n → ((k : ℕ) → digit a k ≡ digit b k) → a ≡ b
unfolding digit
eq_of_digits_below zero a b p q h = omega arith
eq_of_digits_below (suc n) a b p q h =
    let low : a % 2 ≡ b % 2 = h 0 in
    let high : a / 2 ≡ b / 2 =
      eq_of_digits_below n (a / 2) (b / 2) (omega arith) (omega arith) (λ k. h (suc k)) in
    omega arith

pub eq_of_digits : (a b : ℕ) → ((k : ℕ) → digit a k ≡ digit b k) → a ≡ b
eq_of_digits a b h = eq_of_digits_below (a + b) a b (omega arith) (omega arith) h

pub two_pow_suc : (k : ℕ) → 2 ^ suc k ≡ 2 * 2 ^ k
two_pow_suc k = omega (arith, pow-suc 2 k)

pub digit-eq_div_mod : (a k : ℕ) → digit a k ≡ a / 2 ^ k % 2
unfolding digit
digit-eq_div_mod a zero = omega arith
digit-eq_div_mod a (suc k) =
    digit-eq_div_mod (a / 2) k ∙ rw (div-div-eq-div-mul a 2 (2 ^ k), two_pow_suc k) refl

pub bit_and-zero : (a : ℕ) → bit_and a 0 ≡ 0
bit_and-zero a = eq_of_digits _ _ λ k. omega (arith, digit-bit_and a 0 k, digit-zero k)

-- `a & (1 << k)` is that bit of `a` or 0.
pub bit_and-two_pow : (a k : ℕ) → bit_and a (2 ^ k) ≡ digit a k * 2 ^ k
unfolding digit
bit_and-two_pow a zero = omega (arith, bit_and_step a 1, bit_and-zero (a / 2))
bit_and-two_pow a (suc k) =
    let ih = bit_and-two_pow (a / 2) k in
    let low : 2 ^ suc k % 2 ≡ 0 = omega (arith, two_pow_suc k) in
    bit_and_step a (2 ^ suc k)
    ∙ rw (half_two_pow k, low, ih)
        (omega (arith, ap (λ (t : ℕ). digit (a / 2) k * t) (two_pow_suc k)))

mul-two_pow_suc : (q k : ℕ) → q * 2 ^ suc k ≡ 2 * (q * 2 ^ k)
mul-two_pow_suc q k = omega (arith, ap (λ (t : ℕ). q * t) (two_pow_suc k))

-- Fields that do not overlap: `|` is a sum.
pub bit_or_fields : (k r q : ℕ) → r < 2 ^ k → bit_or r (q * 2 ^ k) ≡ r + q * 2 ^ k
bit_or_fields zero r q h = let e : r ≡ 0 = omega arith in rw (e, bit_or-bitwise) (omega arith)
bit_or_fields (suc k) r q h = ground (
  arith,
  bit_or_step r (q * 2 ^ suc k),
  mul-two_pow_suc q k,
  two_pow_suc k,
  bit_or_fields k (r / 2) q (omega (arith, two_pow_suc k)),
)

pub mod-two_pow_suc : (a k : ℕ) → a % 2 ^ suc k ≡ a / 2 % 2 ^ k * 2 + a % 2
mod-two_pow_suc a k = rw two_pow_suc (grind (arith, one-le-pow k 2))

-- A mask of `k` ones is the remainder by `2 ^ k`.
pub bit_and_mask : (k a : ℕ) → bit_and a (2 ^ k - 1) ≡ a % 2 ^ k
bit_and_mask zero a = bit_and-zero a ∙ omega arith
bit_and_mask (suc k) a =
    let half : (2 ^ suc k - 1) / 2 ≡ 2 ^ k - 1 =
      omega (arith, two_pow_suc k, one-le-pow k 2 (omega arith)) in
    let low : (2 ^ suc k - 1) % 2 ≡ 1 =
      omega (arith, two_pow_suc k, one-le-pow k 2 (omega arith)) in
    bit_and_step a (2 ^ suc k - 1)
    ∙ rw (half, low, bit_and_mask k (a / 2)) (omega (arith, mod-two_pow_suc a k))

-- ===== src/Prelude/Xor.antt =====
-- `^` on words of any width: commutative, associative, its own inverse, and closed below `2 ^ w`.
use Prim.Native.Nat.{ℕ, zero, suc, ◌/◌, ◌^◌, ◌<◌, bit_xor}
use mathlib.Core.Path.{◌≡◌, ◌∙◌, ap}
use native.Mathlib.Nat.{pow-suc}
use native.Mathlib.Omega.{arith}
use attic_shogi.Prelude.Bits.{digit-lt, digit-zero, digit-bit_xor, eq_of_digits, bit_xor_step}

pub xor_comm : (a b : ℕ) → bit_xor a b ≡ bit_xor b a
xor_comm a b = eq_of_digits _ _ λ k. omega (arith, digit-bit_xor a b k, digit-bit_xor b a k)

pub xor_assoc : (a b c : ℕ) → bit_xor (bit_xor a b) c ≡ bit_xor a (bit_xor b c)
xor_assoc a b c = eq_of_digits _ _ λ k. omega (
  arith,
  digit-bit_xor (bit_xor a b) c k,
  digit-bit_xor a b k,
  digit-bit_xor a (bit_xor b c) k,
  digit-bit_xor b c k,
)

pub xor_self : (a : ℕ) → bit_xor a a ≡ 0
xor_self a = eq_of_digits _ _ λ k. omega (arith, digit-bit_xor a a k, digit-zero k)

pub xor-zero : (a : ℕ) → bit_xor a 0 ≡ a
xor-zero a = eq_of_digits _ _ λ k. omega (arith, digit-bit_xor a 0 k, digit-zero k, digit-lt a k)

-- Toggling twice.
pub xor_cancel : (a b : ℕ) → bit_xor (bit_xor a b) b ≡ a
xor_cancel a b = xor_assoc a b b ∙ ap (bit_xor a) (xor_self b) ∙ xor-zero a

-- Two toggles commute.
pub xor_right_comm : (a b c : ℕ) → bit_xor (bit_xor a b) c ≡ bit_xor (bit_xor a c) b
xor_right_comm a b c = xor_assoc a b c ∙ ap (bit_xor a) (xor_comm b c) ∙ rw (xor_assoc a c b)

pub xor-lt : (w a b : ℕ) → a < 2 ^ w → b < 2 ^ w → bit_xor a b < 2 ^ w
xor-lt zero a b p q =
    let ea : a ≡ 0 = omega arith in let eb : b ≡ 0 = omega arith in rw (ea, eb) (omega arith)
xor-lt (suc w) a b p q = omega (
  arith,
  bit_xor_step a b,
  pow-suc 2 w,
  xor-lt w (a / 2) (b / 2) (omega (arith, pow-suc 2 w)) (omega (arith, pow-suc 2 w)),
)

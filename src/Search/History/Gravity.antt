-- ===== src/Search/History/Gravity.antt =====
-- The gravity update keeps an entry within its limit.
use attic_shogi.Prelude.{ℕ, zero, suc, ◌+◌, ◌-◌, ◌*◌, ◌/◌, ◌≤◌, ◌<◌, min, ◌≡◌, refl, ap, arith}
use native.Mathlib.Nat.{
  mul-add, mul_comm, mul-le-mul_right, le-div_iff_mul-le, div-le_of_le-mul, zero-div, zero-add,
  mul-div_cancel,
}
use native.Mathlib.Numerals.{unary_clauses}
use native.Mathlib.Decide.{dec_le}
use attic_shogi.Prelude.Int.{ℤ, pos, negsuc, pos_part, neg_part, ◌+ℤ◌, ◌-ℤ◌, int_laws}
use attic_shogi.Storage.Entry.{of_i16}
use attic_shogi.Search.History.{neg, magnitude, clamp, times, quotient, as_i16, apply_gravity}

sum_bound : (a x y b d : ℕ) → 0 < d → a + x ≡ d → x + y ≡ b → y ≤ a → a + b ≤ d + a * b / d
sum_bound a x y b d p e f h =
    let wide : y * d ≤ a * b =
      rw (← e, ← f)
        (omega (
          arith,
          mul-add y a x,
          mul-add a x y,
          mul_comm y a,
          mul-le-mul_right {m = y} {n = a} x h,
        )) in
    omega (arith, (le-div_iff_mul-le {k = d} {x = y} {y = a * b} p).1 wide)

-- The quotient of a product of two numbers up to `d`.
product_bounds :
    (a b d : ℕ)
    → 0 < d
    → a ≤ d
    → b ≤ d
    → (a * b / d ≤ a) × (a * b / d ≤ b) × (a + b ≤ d + a * b / d)
product_bounds a b d p ha hb = (
  div-le_of_le-mul d {m = a * b} {n = a}
      (omega (arith, mul-le-mul_right {m = b} {n = d} a hb, mul_comm a b)),
  div-le_of_le-mul d {m = a * b} {n = b} (mul-le-mul_right {m = a} {n = d} b ha),
  elim (dec_le (a + b) d) [
    | yes small ↦ omega arith
    | no large ↦ sum_bound a (d - a) (a + b - d) b d p (omega arith) (omega arith) (omega arith)
  ],
)

neg_parts : (n : ℕ) → (pos_part (neg n) ≡ 0) × (neg_part (neg n) ≡ n)
neg_parts zero = (refl, refl)
neg_parts (suc n) = (refl, refl)

quotient-neg : (m d : ℕ) → quotient (neg m) d ≡ neg (m / d)
unfolding quotient
quotient-neg zero d = rw (zero-div d)
quotient-neg (suc m) d = refl

-- A number with the sign of an integer.
signed : ℤ → ℕ → ℤ
signed (pos a) k = pos k
signed (negsuc a) k = neg k

quotient-times : (z : ℤ) (m d : ℕ) → quotient (times z m) d ≡ signed z (magnitude z * m / d)
unfolding times quotient signed
quotient-times (pos n) m d = simp unary_clauses refl
quotient-times (negsuc n) m d = rw (zero-add (suc n)) (quotient-neg (suc n * m) d)

as_i16_lem : (v : ℤ) → magnitude v ≤ 32767 → as_i16 v ≡ v
unfolding of_i16
as_i16_lem (pos n) h = ground arith
as_i16_lem (negsuc n) h = ground arith

-- What one update makes of an entry, before the cast.
pub raw : ℤ → ℤ → ℕ → ℤ
unfolding times quotient
raw entry clamped d = entry +ℤ clamped -ℤ quotient (times entry (magnitude clamped)) d

-- A difference of two numbers is within `d` when neither exceeds the other by more.
difference-within :
    (c : ℤ) (x y d : ℕ) → pos_part c + y ≡ neg_part c + x → x ≤ d + y → y ≤ d + x → magnitude c ≤ d
difference-within (pos n) x y d e h k = omega arith
difference-within (negsuc n) x y d e h k = omega arith

decay-within :
    (entry c : ℤ) (d k : ℕ)
    → k ≤ magnitude entry
    → k ≤ magnitude c
    → magnitude entry ≤ d
    → magnitude c ≤ d
    → magnitude entry + magnitude c ≤ d + k
    → magnitude (entry +ℤ c -ℤ signed entry k) ≤ d
unfolding signed
decay-within (pos a) (pos b) d k h1 h2 h3 h4 h5 =
    difference-within (pos a +ℤ pos b -ℤ pos k) (a + b) k d (omega int_laws) (omega arith)
      (omega arith)
decay-within (pos a) (negsuc b) d k h1 h2 h3 h4 h5 =
    difference-within (pos a +ℤ negsuc b -ℤ pos k) a (suc b + k) d (omega int_laws) (omega arith)
      (omega arith)
decay-within (negsuc a) (pos b) d k h1 h2 h3 h4 h5 =
    difference-within (negsuc a +ℤ pos b -ℤ neg k) (b + k) (suc a) d (omega (int_laws, neg_parts k))
      (omega arith) (omega arith)
decay-within (negsuc a) (negsuc b) d k h1 h2 h3 h4 h5 =
    difference-within (negsuc a +ℤ negsuc b -ℤ neg k) k (suc a + suc b) d
      (omega (int_laws, neg_parts k)) (omega arith) (omega arith)

raw-within :
    (entry c : ℤ) (d : ℕ)
    → 0 < d
    → magnitude entry ≤ d
    → magnitude c ≤ d
    → magnitude (raw entry c d) ≤ d
unfolding raw times quotient
raw-within entry c d p ha hb =
    let (below, under, wide) = product_bounds (magnitude entry) (magnitude c) d p ha hb in
    rw (quotient-times entry (magnitude c) d) (decay-within entry c d _ below under ha hb wide)

clamp-within : (bonus : ℤ) (d : ℕ) → magnitude (clamp bonus d) ≤ d
unfolding clamp
clamp-within (pos n) d = omega arith
clamp-within (negsuc n) d = omega (arith, neg_parts (min (suc n) d))

-- An update keeps an entry of a table within the limit of the table, for every bonus, where the
-- limit is positive and fits an `i16`. The cast to `i16` therefore loses nothing: the result is
-- the sum the formula describes.
pub apply_gravity-within :
    (entry bonus : ℤ) (d : ℕ)
    → 0 < d
    → d ≤ 32767
    → magnitude entry ≤ d
    → (magnitude (apply_gravity entry bonus d) ≤ d)
      × (apply_gravity entry bonus d
          ≡ entry +ℤ clamp bonus d -ℤ quotient (times entry (magnitude (clamp bonus d))) d)
unfolding apply_gravity raw
apply_gravity-within entry bonus d p q h =
    let bound = raw-within entry (clamp bonus d) d p h (clamp-within bonus d) in
    let exact = as_i16_lem (raw entry (clamp bonus d) d) (omega arith) in (rw exact bound, exact)

eq_of_parts : (x y : ℤ) → pos_part x + neg_part y ≡ pos_part y + neg_part x → x ≡ y
eq_of_parts (pos a) (pos b) e = ap pos (omega arith)
eq_of_parts (pos a) (negsuc b) e = absurd (omega arith)
eq_of_parts (negsuc a) (pos b) e = absurd (omega arith)
eq_of_parts (negsuc a) (negsuc b) e = ap negsuc (omega arith)

signed-magnitude : (z : ℤ) → signed z (magnitude z) ≡ z
unfolding signed
signed-magnitude (pos a) = ap pos (omega arith)
signed-magnitude (negsuc a) = rw (zero-add (suc a)) refl

-- A bonus as large as the limit replaces the entry.
raw-full : (entry c : ℤ) (d : ℕ) → 0 < d → magnitude c ≡ d → raw entry c d ≡ c
unfolding raw times quotient
raw-full entry c d p e =
    rw
      (
        quotient-times entry (magnitude c) d,
        e,
        mul-div_cancel (magnitude entry) p,
        signed-magnitude entry,
      )
      (eq_of_parts (entry +ℤ c -ℤ entry) c (omega int_laws))

magnitude-neg : (n : ℕ) → magnitude (neg n) ≡ n
magnitude-neg n = omega (arith, neg_parts n)

clamp-full : (b d : ℕ) → 0 < d → d ≤ b → (clamp (pos b) d ≡ pos d) × (clamp (neg b) d ≡ neg d)
unfolding clamp
clamp-full zero d p k = absurd (omega arith)
clamp-full (suc b) d p k = let full : min (suc b) d ≡ d = omega arith in rw full (refl, refl)

saturates :
    (entry bonus c : ℤ) (d : ℕ)
    → 0 < d
    → d ≤ 32767
    → clamp bonus d ≡ c
    → magnitude c ≡ d
    → apply_gravity entry bonus d ≡ c
unfolding apply_gravity raw
saturates entry bonus c d p q e m = rw (e, raw-full entry c d p m) (as_i16_lem c (omega arith))

-- A bonus at or beyond the limit saturates an entry, whatever it was.
pub apply_gravity-saturates :
    (entry : ℤ) (b d : ℕ)
    → 0 < d
    → d ≤ 32767
    → d ≤ b
    → (apply_gravity entry (pos b) d ≡ pos d) × (apply_gravity entry (neg b) d ≡ neg d)
apply_gravity-saturates entry b d p q k =
    let (above, below) = clamp-full b d p k in
    (
      saturates entry (pos b) (pos d) d p q above (omega arith),
      saturates entry (neg b) (neg d) d p q below (magnitude-neg d),
    )

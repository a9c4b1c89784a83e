-- ===== src/Storage/Entry/Laws.antt =====
-- What is read of a written entry, the key after a save, and the age of an entry.
use attic_shogi.Prelude.{
  ℕ, zero, suc, ◌+◌, ◌-◌, ◌*◌, ◌/◌, ◌%◌, ◌^◌, ◌<◌, bit_and, ◌≡◌, refl, sym, ap, ◌∙◌, Bool, true,
  false, not, ◌||◌, ◌==◌, if◌then◌else◌, arith, Bool-cases, inl, inr,
}
use attic_shogi.Prelude.Bits.{
  bit_and_step, bit_and_mask, bit_or_fields, bit_and-two_pow, digit-eq_div_mod,
}
use attic_shogi.Prelude.Int.{ℤ, pos, negsuc, ◌+ℤ◌, ◌-ℤ◌, ◌≤ℤ◌, ltb_ℤ}
use attic_shogi.Storage.Entry.{
  Bound, no_bound, upper, lower, exact, bound_code, bound_of_code, TtData, TtEntry, Save,
  relative_age, to_i16, of_i16, to_u8, depth_none, read, is_occupied, bit_of, keeps_move, replaces,
  pack, save, bound_mask, pv_mask,
}

pub relative_age_lem : (g c : ℕ) → g < 2 ^ 8 → relative_age g c ≡ (c + 2 ^ 8 - g) % 2 ^ 5
unfolding relative_age
relative_age_lem g c h = bit_and_mask 5 ((c + 2 ^ 8 - g) % 2 ^ 8) ∙ omega arith

-- What the arguments of `save` are in the program: 16-bit words, a depth that its byte holds and
-- that is not `DEPTH_NONE`, and a generation of five bits.
pub record IsSave (s : Save) : Type 0 where
  pub key : s.key < 2 ^ 16
  pub move16 : s.move16 < 2 ^ 16
  pub value : (negsuc 32767 ≤ℤ s.value) × (s.value ≤ℤ pos 32767)
  pub eval : (negsuc 32767 ≤ℤ s.eval) × (s.eval ≤ℤ pos 32767)
  pub depth : (negsuc 1 ≤ℤ s.depth) × (s.depth ≤ℤ pos 252)
  pub generation : s.generation < 2 ^ 5

pub to_i16-lt : (v : ℤ) → to_i16 v < 2 ^ 16
to_i16-lt (pos n) = omega arith
to_i16-lt (negsuc n) = omega arith

pub of_i16-to_i16 : (v : ℤ) → negsuc 32767 ≤ℤ v → v ≤ℤ pos 32767 → of_i16 (to_i16 v) ≡ v
unfolding of_i16
of_i16-to_i16 (pos n) p q = ground arith
of_i16-to_i16 (negsuc n) p q = ground arith

depth_back :
    (d : ℤ)
    → negsuc 1 ≤ℤ d
    → d ≤ℤ pos 252
    → (depth_none +ℤ pos (to_u8 (d -ℤ depth_none)) ≡ d) × (0 < to_u8 (d -ℤ depth_none))
unfolding ◌+ℤ◌ ◌-ℤ◌
depth_back (pos n) p q = ground arith
depth_back (negsuc zero) p q = ground arith
depth_back (negsuc (suc zero)) p q = ground arith
depth_back (negsuc (suc (suc n))) p q = absurd (omega arith)

pub bound_code-lt : (b : Bound) → bound_code b < 4
bound_code-lt b = ground arith

pub bit_of-lt : (b : Bool) → bit_of b < 2
bit_of-lt b = ground arith

pub pack_lem :
    (s : Save)
    → s.generation < 2 ^ 5
    → pack s ≡ s.generation + bound_code s.bound * 2 ^ 5 + bit_of s.pv * 2 ^ 7
unfolding pack
pack_lem s h =
    let low = bit_or_fields 5 s.generation (bound_code s.bound) h in
    rw low (
      bit_or_fields 7 (s.generation + bound_code s.bound * 2 ^ 5) (bit_of s.pv)
        (omega (arith, bound_code-lt s.bound)))

bit_and_even : (a m : ℕ) → bit_and a (m * 2) ≡ bit_and (a / 2) m * 2
bit_and_even a m =
    let half : m * 2 / 2 ≡ m = omega arith in
    let low : m * 2 % 2 ≡ 0 = omega arith in bit_and_step a (m * 2) ∙ rw (half, low) (omega arith)

bound_field : (a : ℕ) → bit_and a bound_mask / 2 ^ 5 ≡ a / 2 ^ 5 % 4
bound_field a = omega (
  arith,
  bit_and_even a 48,
  bit_and_even (a / 2) 24,
  bit_and_even (a / 2 / 2) 12,
  bit_and_even (a / 2 / 2 / 2) 6,
  bit_and_even (a / 2 / 2 / 2 / 2) 3,
  bit_and_mask 2 (a / 2 / 2 / 2 / 2 / 2),
)

pv_field : (a : ℕ) → bit_and a pv_mask ≡ a / 2 ^ 7 % 2 * 2 ^ 7
pv_field a = bit_and-two_pow a 7 ∙ ap (λ (x : ℕ). x * 2 ^ 7) (digit-eq_div_mod a 7)

bound_back : (b : Bound) → bound_of_code (bound_code b) ≡ b
unfolding bound_of_code
bound_back no_bound = refl
bound_back upper = refl
bound_back lower = refl
bound_back exact = refl

bound_of_pack :
    (s : Save)
    → s.generation < 2 ^ 5
    → bound_of_code (bit_and (pack s) bound_mask / 2 ^ 5) ≡ s.bound
bound_of_pack s h =
    let field : pack s / 2 ^ 5 % 4 ≡ bound_code s.bound =
      omega (arith, pack_lem s h, bound_code-lt s.bound, bit_of-lt s.pv) in
    rw (bound_field (pack s), field) (bound_back s.bound)

pv_of_pack : (s : Save) → s.generation < 2 ^ 5 → not (bit_and (pack s) pv_mask == 0) ≡ s.pv
pv_of_pack s h =
    let field : pack s / 2 ^ 7 % 2 ≡ bit_of s.pv =
      omega (arith, pack_lem s h, bound_code-lt s.bound, bit_of-lt s.pv) in
    rw (pv_field (pack s), field) (ground arith)

-- What a reader sees of saved arguments, with the given move.
abbrev pub saved : Save → ℕ → TtData
saved s m = record {
  move16 = m;
  value = s.value;
  eval = s.eval;
  depth = s.depth;
  bound = s.bound;
  is_pv = s.pv;
}

-- The entry with every field but the move written.
abbrev pub written : TtEntry → Save → TtEntry
written e s = record e {
  key = s.key;
  depth8 = to_u8 (s.depth -ℤ depth_none);
  gen_bound8 = pack s;
  value16 = to_i16 s.value;
  eval16 = to_i16 s.eval;
}

pub read-written : (e : TtEntry) (s : Save) → IsSave s → read (written e s) ≡ saved s e.move16
unfolding read
read-written e s v = λ i. record {
  move16 = e.move16;
  value = of_i16-to_i16 s.value v.value.0 v.value.1 i;
  eval = of_i16-to_i16 s.eval v.eval.0 v.eval.1 i;
  depth = (depth_back s.depth v.depth.0 v.depth.1).0 i;
  bound = bound_of_pack s v.generation i;
  is_pv = pv_of_pack s v.generation i;
}

third_of : (a b c d : Bool) → (a || b || c || d) ≡ false → c ≡ false
third_of a b c d h = ground arith

-- Only a deeper entry of the same key is not replaced.
not_replaced :
    (e : TtEntry) (s : Save) → IsSave s → replaces e s ≡ false → (s.key ≡ e.key) × (0 < e.depth8)
unfolding replaces ◌+ℤ◌ ◌-ℤ◌
not_replaced e s v r = (
  ground arith,
  shallow s.depth v.depth.0 (
      third_of (bound_code s.bound == 3) (not (s.key == e.key))
        (ltb_ℤ (pos e.depth8 -ℤ pos 4) (s.depth -ℤ depth_none +ℤ pos (2 * bit_of s.pv)))
        (not (relative_age e.gen_bound8 s.generation == 0)) r),
)
  where
    shallow :
        (d : ℤ)
        → negsuc 1 ≤ℤ d
        → ltb_ℤ (pos e.depth8 -ℤ pos 4) (d -ℤ depth_none +ℤ pos (2 * bit_of s.pv)) ≡ false
        → 0 < e.depth8
    shallow (pos n) p q = ground arith
    shallow (negsuc n) p q = ground arith

moved_key :
    (b : Bool) (e : TtEntry) (s : Save)
    → (s.key ≡ e.key) × (0 < e.depth8)
    → let moved = if b then record e { move16 = s.move16 } else e in
      (moved.key ≡ s.key) × (not (moved.depth8 == 0) ≡ true)
moved_key true e s h = (sym h.0, ground arith)
moved_key false e s h = (sym h.0, ground arith)

-- After a save of valid arguments the entry holds their key and is occupied, whatever it held.
pub save-key :
    (e : TtEntry) (s : Save) → IsSave s → ((save e s).key ≡ s.key) × (is_occupied (save e s) ≡ true)
unfolding save is_occupied
save-key e s v = elim (Bool-cases (replaces e s)) [
  | inl r ↦ rw r (refl, ground (arith, (depth_back s.depth v.depth.0 v.depth.1).1))
  | inr r ↦ rw r (moved_key (keeps_move e s) e s (not_replaced e s v r))
]

-- The age of a saved entry of a generation below 32 is the number of generations since, modulo 32,
-- whatever its bound and pv bits.
pub relative_age-pack :
    (s : Save) (c : ℕ)
    → s.generation < 2 ^ 5
    → relative_age (pack s) c ≡ (c + 2 ^ 5 - s.generation) % 2 ^ 5
relative_age-pack s c h =
    relative_age_lem (pack s) c (omega (arith, pack_lem s h, bound_code-lt s.bound, bit_of-lt s.pv))
    ∙ omega (arith, pack_lem s h, bound_code-lt s.bound, bit_of-lt s.pv)

-- ===== src/State/Sfen/Numbers.antt =====
-- Printed numbers, read back: the counts of the hands and the ply.
use attic_shogi.Prelude.{
  ℕ, zero, suc, ◌+◌, ◌-◌, ◌*◌, ◌/◌, ◌%◌, ◌^◌, ◌≤◌, ◌<◌, ◌≡◌, refl, sym, ap, ◌∙◌, Bool, true, false,
  ◌==◌, ltb, Bool-cases, inl, inr, some, List, [], ◌∷◌, ◌++◌, arith,
}
use native.Mathlib.Nat.{pow-suc}
use attic_shogi.State.Position.Types.{Position}
use attic_shogi.State.Sfen.Chars.{Text, decimal, to_string, read_u16, parse_u16, is_ascii_digit}
use attic_shogi.State.Sfen.Parser.{Counting, hand_char, hand_chars}
use attic_shogi.State.Sfen.Rows.{++_assoc}

digit-test : (d : ℕ) → d < 10 → is_ascii_digit (b'0' + d) ≡ true
digit-test d h = ground arith

-- Both ways to print a number, by its size.
decimal-small : (f n : ℕ) → n < 10 → decimal f n ≡ (b'0' + n) ∷ []
unfolding decimal
decimal-small zero n h = let same : n % 10 ≡ n = omega arith in rw same refl
decimal-small (suc f) n h = let small : ltb n 10 ≡ true = ground arith in rw small refl

decimal-large :
    (f n : ℕ) → 10 ≤ n → decimal (suc f) n ≡ decimal f (n / 10) ++ ((b'0' + n % 10) ∷ [])
unfolding decimal
decimal-large f n h = let large : ltb n 10 ≡ false = ground arith in rw large refl

read_u16-digit :
    (d : ℕ) (t : Text) (acc v : ℕ)
    → d < 10
    → acc * 10 + d ≡ v
    → v < 2 ^ 16
    → read_u16 ((b'0' + d) ∷ t) acc ≡ read_u16 t v
unfolding read_u16
read_u16-digit d t acc v hd e h =
    let value : acc * 10 + (b'0' + d - b'0') ≡ v = omega arith in
    let fits : ltb v (2 ^ 16) ≡ true = ground arith in rw (value, digit-test d hd, fits) refl

read_u16-decimal :
    (f n : ℕ) (t : Text)
    → n < 10 ^ suc f
    → n < 2 ^ 16
    → read_u16 (decimal f n ++ t) 0 ≡ read_u16 t n
read_u16-decimal zero n t fuel h =
    rw (decimal-small zero n (omega (arith, fuel)))
      (read_u16-digit n t 0 n (omega (arith, fuel)) (omega arith) h)
read_u16-decimal (suc f) n t fuel h = elim (Bool-cases (ltb n 10)) [
  | inl small ↦
      rw (decimal-small (suc f) n (ground arith))
        (read_u16-digit n t 0 n (ground arith) (omega arith) h)
  | inr large ↦
      let last = (b'0' + n % 10) ∷ [] in
      rw (decimal-large f n (ground arith), ++_assoc (decimal f (n / 10)) last t)
        (read_u16-decimal f (n / 10) (last ++ t) (omega (arith, pow-suc 10 (suc f))) (omega arith)
          ∙ read_u16-digit (n % 10) t (n / 10) n (omega arith) (omega arith) h)
]

-- A printed number starts with a digit.
decimal-head : (f n : ℕ) → (d : ℕ) × (t : Text) × (d < 10) × (decimal f n ≡ (b'0' + d) ∷ t)
unfolding decimal
decimal-head zero n = (n % 10, [], omega arith, refl)
decimal-head (suc f) n = elim (Bool-cases (ltb n 10)) [
  | inl small ↦ (n, [], ground arith, decimal-small (suc f) n (ground arith))
  | inr large ↦
      let (d, t, hd, e) = decimal-head f (n / 10) in
      (
        d,
        t ++ ((b'0' + n % 10) ∷ []),
        hd,
        decimal-large f n (ground arith) ∙ ap (λ u. u ++ ((b'0' + n % 10) ∷ [])) e,
      )
]

parse_u16-read :
    (d : ℕ) (t : Text) → d < 10 → parse_u16 ((b'0' + d) ∷ t) ≡ read_u16 ((b'0' + d) ∷ t) 0
unfolding parse_u16
parse_u16-read d [] h = refl
parse_u16-read d (c ∷ t) h = let plain : (b'0' + d == b'+') ≡ false = ground arith in rw plain refl

pub ++-empty {ℓ} : {A : Type ℓ} (xs : List A) → xs ++ [] ≡ xs
++-empty [] = refl
++-empty (x ∷ xs) = ap (λ l. x ∷ l) (++-empty xs)

-- A 16-bit number that is printed parses back.
pub parse_u16-to_string : (n : ℕ) → n < 2 ^ 16 → parse_u16 (to_string n) ≡ some n
unfolding to_string read_u16
parse_u16-to_string n h =
    let (d, t, hd, e) = decimal-head 4 n in
    let read : read_u16 (decimal 4 n) 0 ≡ some n =
      ap (λ u. read_u16 u 0) (sym (++-empty (decimal 4 n)))
      ∙ read_u16-decimal 4 n [] (omega arith) h in
    rw e (parse_u16-read d t hd ∙ (rw e at read))

module _ {Info : Type 0} where
  abbrev pub counting : Position Info → ℕ → Bool → Counting Info
  counting pos n started = record { pos = pos; count = n; count_started = started }

  hand_chars-digit :
      (d : ℕ) (t : Text) (pos : Position Info) (acc v : ℕ) (started : Bool)
      → d < 10
      → acc * 10 + d ≡ v
      → v < 2 ^ 32
      → hand_chars ((b'0' + d) ∷ t) (counting pos acc started) ≡ hand_chars t (counting pos v true)
  unfolding hand_chars hand_char
  hand_chars-digit d t pos acc v started hd e h =
      let value : (acc * 10 + (b'0' + d - b'0')) % 2 ^ 32 ≡ v = omega arith in
      rw (digit-test d hd, value) refl

  -- A printed count is the count, started.
  pub hand_chars-decimal :
      (f n : ℕ) (t : Text) (pos : Position Info)
      → n < 10 ^ suc f
      → n < 2 ^ 32
      → hand_chars (decimal f n ++ t) (counting pos 0 false) ≡ hand_chars t (counting pos n true)
  hand_chars-decimal zero n t pos fuel h =
      rw (decimal-small zero n (omega (arith, fuel)))
        (hand_chars-digit n t pos 0 n false (omega (arith, fuel)) (omega arith) h)
  hand_chars-decimal (suc f) n t pos fuel h = elim (Bool-cases (ltb n 10)) [
    | inl small ↦
        rw (decimal-small (suc f) n (ground arith))
          (hand_chars-digit n t pos 0 n false (ground arith) (omega arith) h)
    | inr large ↦
        let last = (b'0' + n % 10) ∷ [] in
        rw (decimal-large f n (ground arith), ++_assoc (decimal f (n / 10)) last t)
          (hand_chars-decimal f (n / 10) (last ++ t) pos (omega (arith, pow-suc 10 (suc f)))
              (omega arith)
            ∙ hand_chars-digit (n % 10) t pos (n / 10) n true (omega arith) (omega arith) h)
  ]

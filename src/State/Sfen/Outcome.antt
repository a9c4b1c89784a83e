-- ===== src/State/Sfen/Outcome.antt =====
-- What a parse of SFEN text can give, and the characters, pieces and numbers in it.
use attic_shogi.Prelude.{
  ℕ, zero, suc, ◌+◌, ◌-◌, ◌*◌, ◌^◌, ◌<◌, ◌≡◌, refl, inl, inr, Bool, true, false, ◌==◌, ltb, ◌&&◌,
  Bool-cases, Option-cases, Option, none, some, [], ◌∷◌, arith,
}
use mathlib.Core.Option.{none-ne-some, some-injective}
use attic_shogi.Prelude.Result.{Result, ok, err, ◌>>=◌}
use attic_shogi.State.Piece.{Color, PieceKind}
use attic_shogi.State.Hand.{Hand, increment}
use attic_shogi.State.Hand.Laws.{IsHand, increment-IsHand}
use attic_shogi.State.Sfen.Chars.{
  Text, SfenError, Failure, sfen, ok_or, parse_piece_char, color_of_case, kind_of_upper, parse_u16,
  read_u16, is_ascii_digit, to_ascii_uppercase,
}
use attic_shogi.State.Sfen.Parser.{piece_of, increments}

-- A result of the property, or an error of the parser; no panic.
pub data Outcome {ℓ} {A : Type ℓ} (P : A → Type 0) : Result Failure A → Type ℓ where
  returned : (a : A) → P a → Outcome P (ok a)
  failed : (e : SfenError) → Outcome P (err (sfen e))

pub Outcome->>= {ℓ κ} :
    {A : Type ℓ} {B : Type κ} {P : A → Type 0} {Q : B → Type 0} {r : Result Failure A}
    {f : A → Result Failure B}
    → Outcome P r
    → ((a : A) → P a → Outcome Q (f a))
    → Outcome Q (r >>= f)
Outcome->>= (returned a p) k = k a p
Outcome->>= (failed e) k = failed e

pub ok_or-Outcome {ℓ} :
    {A : Type ℓ} {P : A → Type 0} (o : Option A) (e : SfenError)
    → ((a : A) → o ≡ some a → P a)
    → Outcome P (ok_or o e)
ok_or-Outcome none e h = failed e
ok_or-Outcome (some a) e h = returned a (h a refl)

pub parse_piece_char-Outcome : (ch : ℕ) → Outcome (λ named. Unit) (parse_piece_char ch)
unfolding parse_piece_char
parse_piece_char-Outcome ch = elim (Option-cases (color_of_case ch)) [
  | inl e ↦ rw e (failed _)
  | inr (c, e) ↦ rw e (elim (Option-cases (kind_of_upper (to_ascii_uppercase ch))) [
    | inl f ↦ rw f (failed _)
    | inr (k, f) ↦ rw f (returned _ tt)
  ])
]

pub piece_of-Outcome :
    (ch : ℕ) (promote : Bool) (kind : PieceKind) (c : Color)
    → Outcome (λ p. Unit) (piece_of ch promote kind c)
unfolding piece_of
piece_of-Outcome ch true _ c = ok_or-Outcome _ _ (λ a e'. tt)
piece_of-Outcome ch false _ c = returned _ tt

pub increments-IsHand : (n : ℕ) (k : PieceKind) (h : Hand) → IsHand h → IsHand (increments n k h)
unfolding increments
increments-IsHand zero k h p = p
increments-IsHand (suc n) k h p = increments-IsHand n k (increment h k) (increment-IsHand h k p)

pub read_u16-lt : (t : Text) (acc n : ℕ) → acc < 2 ^ 16 → read_u16 t acc ≡ some n → n < 2 ^ 16
unfolding read_u16
read_u16-lt [] acc n h e = let same : acc ≡ n = some-injective _ _ e in omega arith
read_u16-lt (c ∷ t) acc n h e =
    elim (Bool-cases (is_ascii_digit c && ltb (acc * 10 + (c - b'0')) (2 ^ 16))) [
      | inl f ↦ read_u16-lt t (acc * 10 + (c - b'0')) n (ground arith) (rw f at e)
      | inr f ↦ absurd (none-ne-some n (rw f at e))
    ]

pub parse_u16-lt : (t : Text) (n : ℕ) → parse_u16 t ≡ some n → n < 2 ^ 16
unfolding parse_u16
parse_u16-lt [] n e = absurd (none-ne-some n e)
parse_u16-lt (c ∷ []) n e = read_u16-lt (c ∷ []) 0 n (omega arith) e
parse_u16-lt (c ∷ d ∷ t) n e = elim (Bool-cases (c == b'+')) [
  | inl f ↦ read_u16-lt (d ∷ t) 0 n (omega arith) (rw f at e)
  | inr f ↦ read_u16-lt (c ∷ d ∷ t) 0 n (omega arith) (rw f at e)
]

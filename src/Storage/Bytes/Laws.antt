-- ===== src/Storage/Bytes/Laws.antt =====
-- Slices of what was appended, and words read back from their bytes.
use attic_shogi.Prelude.{
  ℕ, zero, suc, ◌+◌, ◌-◌, ◌*◌, ◌/◌, ◌%◌, ◌^◌, ◌≤◌, ◌<◌, ◌≡◌, refl, sym, ap, ◌∙◌, true, false, leb,
  List, [], ◌∷◌, ◌++◌, none, some, length, arith,
}
use attic_shogi.Storage.Bytes.{
  Bytes, take, drop, slice, get_range, checked, from_le_bytes, to_le_bytes, read_u16_le,
  read_u64_le,
}

module _ {ℓ} {A : Type ℓ} where
  pub length-++ : (xs ys : List A) → length (xs ++ ys) ≡ length xs + length ys
  length-++ [] ys = omega arith
  length-++ (x ∷ xs) ys = ap suc (length-++ xs ys) ∙ omega arith

  pub length-take : (n : ℕ) (xs : List A) → n ≤ length xs → length (take n xs) ≡ n
  length-take zero xs h = refl
  length-take (suc n) [] h = absurd (omega arith)
  length-take (suc n) (x ∷ xs) h = ap suc (length-take n xs (omega arith))

  pub length-drop : (n : ℕ) (xs : List A) → length (drop n xs) ≡ length xs - n
  length-drop zero xs = omega arith
  length-drop (suc n) [] = omega arith
  length-drop (suc n) (x ∷ xs) = length-drop n xs ∙ omega arith

  pub take-++ : (xs ys : List A) (n : ℕ) → length xs ≡ n → take n (xs ++ ys) ≡ xs
  take-++ [] ys zero h = refl
  take-++ [] ys (suc n) h = absurd (omega arith)
  take-++ (x ∷ xs) ys zero h = absurd (omega arith)
  take-++ (x ∷ xs) ys (suc n) h = ap (λ t. x ∷ t) (take-++ xs ys n (omega arith))

  pub take-take : (n m : ℕ) (xs : List A) → n ≤ m → take n (take m xs) ≡ take n xs
  take-take zero m xs h = refl
  take-take (suc n) zero xs h = absurd (omega arith)
  take-take (suc n) (suc m) [] h = refl
  take-take (suc n) (suc m) (x ∷ xs) h = ap (λ t. x ∷ t) (take-take n m xs (omega arith))

  take_none : (n : ℕ) (xs : List A) → n ≡ 0 → take n xs ≡ []
  take_none zero xs h = refl
  take_none (suc n) xs h = absurd (omega arith)

  take_nil : (n : ℕ) → take {A = A} n [] ≡ []
  take_nil zero = refl
  take_nil (suc n) = refl

  pub drop-take : (n m : ℕ) (xs : List A) → drop n (take m xs) ≡ take (m - n) (drop n xs)
  drop-take zero m xs = ap (λ t. take t xs) (sub_zero m)
    where
      sub_zero : (a : ℕ) → a ≡ a - 0
      sub_zero a = omega arith
  drop-take (suc n) zero xs = sym (take_none (0 - suc n) (drop (suc n) xs) (omega arith))
  drop-take (suc n) (suc m) [] = sym (take_nil (suc m - suc n))
  drop-take (suc n) (suc m) (x ∷ xs) = drop-take n m xs ∙ ap (λ t. take t (drop n xs)) (sub_suc m n)
    where
      sub_suc : (a b : ℕ) → a - b ≡ suc a - suc b
      sub_suc a b = omega arith

  -- Skipping a whole prefix.
  pub drop-++ : (xs ys : List A) (n k : ℕ) → length xs ≡ n → drop (n + k) (xs ++ ys) ≡ drop k ys
  drop-++ [] ys zero k h = ap (λ t. drop t ys) (omega arith)
  drop-++ [] ys (suc n) k h = absurd (omega arith)
  drop-++ (x ∷ xs) ys zero k h = absurd (omega arith)
  drop-++ (x ∷ xs) ys (suc n) k h =
      ap (λ t. drop t (x ∷ xs ++ ys)) (suc_add n k) ∙ drop-++ xs ys n k (omega arith)
    where
      suc_add : (a b : ℕ) → suc a + b ≡ suc (a + b)
      suc_add a b = omega arith

pub length-to_le_bytes : (n x : ℕ) → length (to_le_bytes n x) ≡ n
unfolding to_le_bytes
length-to_le_bytes zero x = refl
length-to_le_bytes (suc n) x = ap suc (length-to_le_bytes n (x / 256))

pub from_le_bytes-to_le_bytes : (n x : ℕ) → x < 256 ^ n → from_le_bytes (to_le_bytes n x) ≡ x
unfolding from_le_bytes to_le_bytes
from_le_bytes-to_le_bytes zero x h = omega arith
from_le_bytes-to_le_bytes (suc n) x h =
    ap (λ t. x % 256 + 256 * t) (from_le_bytes-to_le_bytes n (x / 256) (omega arith)) ∙ omega arith

-- A slice that starts where a known prefix ends, and is as long as the list that follows it.
pub slice-++ :
    (pre mid post : Bytes) (start n : ℕ)
    → length pre ≡ start
    → length mid ≡ n
    → slice start n (pre ++ (mid ++ post)) ≡ mid
slice-++ pre mid post start n p q =
    ap (λ t. take n t)
      (ap (λ t. drop t (pre ++ (mid ++ post))) (omega arith) ∙ drop-++ pre (mid ++ post) start 0 p)
    ∙ take-++ mid post n q
  where
    zero_add : (a : ℕ) → a ≡ a + 0
    zero_add a = omega arith

-- A slice past a whole prefix, and of one.
pub slice_skip :
    (pre ys : Bytes) (n k m : ℕ) → length pre ≡ n → slice (n + k) m (pre ++ ys) ≡ slice k m ys
slice_skip pre ys n k m h = ap (take m) (drop-++ pre ys n k h)

pub slice_head : (xs ys : Bytes) (n : ℕ) → length xs ≡ n → slice 0 n (xs ++ ys) ≡ xs
slice_head xs ys n h = take-++ xs ys n h

-- A slice of a prefix that holds it.
pub slice-slice :
    (start n m : ℕ) (xs : Bytes) → start + n ≤ m → slice start n (take m xs) ≡ slice start n xs
slice-slice start n m xs h =
    ap (take n) (drop-take start m xs) ∙ take-take n (m - start) (drop start xs) (omega arith)

pub length-slice :
    (start n : ℕ) (data_ : Bytes) → start + n ≤ length data_ → length (slice start n data_) ≡ n
length-slice start n data_ h =
    length-take n (drop start data_) (rw (length-drop start data_) (omega arith))

pub leb-true : (a b : ℕ) → a ≤ b → leb a b ≡ true
leb-true a b h = ground arith

pub leb-false : (a b : ℕ) → b < a → leb a b ≡ false
leb-false a b h = ground arith

-- A range in bounds is its slice; any other is refused.
pub get_range-in :
    (data_ : Bytes) (start n : ℕ)
    → start + n ≤ length data_
    → get_range data_ start (start + n) ≡ some (slice start n data_)
get_range-in data_ start n h =
    rw (leb-true start (start + n) (omega arith), leb-true (start + n) (length data_) h)
      (ap (λ t. some (slice start t data_)) (add_sub start n))
  where
    add_sub : (a b : ℕ) → a + b - a ≡ b
    add_sub a b = omega arith

pub get_range-out :
    (data_ : Bytes) (start n : ℕ)
    → length data_ < start + n
    → get_range data_ start (start + n) ≡ none
get_range-out data_ start n h =
    rw (leb-true start (start + n) (omega arith), leb-false (start + n) (length data_) h) refl

pub read_u16_le-to_le_bytes : (x : ℕ) → x < 2 ^ 16 → read_u16_le (to_le_bytes 2 x) ≡ x
unfolding read_u16_le from_le_bytes to_le_bytes
read_u16_le-to_le_bytes x h = omega arith

pub read_u64_le-to_le_bytes : (x : ℕ) → x < 2 ^ 64 → read_u64_le (to_le_bytes 8 x) ≡ x
unfolding read_u64_le
read_u64_le-to_le_bytes x h =
    ap from_le_bytes (take_whole (to_le_bytes 8 x) 8 (length-to_le_bytes 8 x))
    ∙ from_le_bytes-to_le_bytes 8 x h
  where
    take_whole : (xs : Bytes) (n : ℕ) → length xs ≡ n → take n xs ≡ xs
    take_whole [] zero e = refl
    take_whole [] (suc n) e = refl
    take_whole (y ∷ ys) zero e = absurd (omega arith)
    take_whole (y ∷ ys) (suc n) e = ap (λ t. y ∷ t) (take_whole ys n (omega arith))

pub checked-in : (n : ℕ) → n < 2 ^ 64 → checked n ≡ some n
checked-in n h = ground arith

pub checked-out : (n : ℕ) → 2 ^ 64 ≤ n → checked n ≡ none
checked-out n h = ground arith

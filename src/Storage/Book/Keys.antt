-- ===== src/Storage/Book/Keys.antt =====
-- The order of the packed keys, `cmp` of slices in crates/attic-storage/src/book.rs.
use attic_shogi.Prelude.{ℕ, ◌<◌, ◌≡◌, refl, ap₂, ◌∙◌, ◌≢◌, ◌⊎◌, inl, inr, [], ◌∷◌, arith}
use attic_shogi.Storage.Bytes.{Bytes}
use attic_shogi.Storage.Book.{Order, less, equal, greater, cmp_byte, cmp}

-- A comparison of two bytes that leads to `less`: the first one decides, or the rest does.
cmp_byte-less : (a b : ℕ) (o : Order) → cmp_byte a b o ≡ less → (a < b) ⊎ ((a ≡ b) × (o ≡ less))
unfolding cmp_byte
cmp_byte-less a b o h = ground arith

cmp_byte-greater :
    (a b : ℕ) (o : Order) → cmp_byte a b o ≡ greater → (b < a) ⊎ ((a ≡ b) × (o ≡ greater))
unfolding cmp_byte
cmp_byte-greater a b o h = ground arith

cmp_byte-equal : (a b : ℕ) (o : Order) → cmp_byte a b o ≡ equal → (a ≡ b) × (o ≡ equal)
unfolding cmp_byte
cmp_byte-equal a b o h = ground arith

cmp_byte-lt : (a b : ℕ) (o : Order) → a < b → cmp_byte a b o ≡ less
unfolding cmp_byte
cmp_byte-lt a b o h = ground arith

cmp_byte-gt : (a b : ℕ) (o : Order) → b < a → cmp_byte a b o ≡ greater
unfolding cmp_byte
cmp_byte-gt a b o h = ground arith

cmp_byte_self : (a : ℕ) (o : Order) → cmp_byte a a o ≡ o
unfolding cmp_byte
cmp_byte_self a o = ground arith

pub cmp_refl : (a : Bytes) → cmp a a ≡ equal
unfolding cmp
cmp_refl [] = refl
cmp_refl (a ∷ xs) = cmp_byte_self a (cmp xs xs) ∙ cmp_refl xs

pub eq_of_cmp : (a b : Bytes) → cmp a b ≡ equal → a ≡ b
unfolding cmp
eq_of_cmp [] [] h = refl
eq_of_cmp [] (b ∷ ys) h = cc
eq_of_cmp (a ∷ xs) [] h = cc
eq_of_cmp (a ∷ xs) (b ∷ ys) h =
    let (e, r) = cmp_byte-equal a b (cmp xs ys) h in ap₂ ◌∷◌ e (eq_of_cmp xs ys r)

pub cmp_swap : (a b : Bytes) → cmp a b ≡ greater → cmp b a ≡ less
unfolding cmp
cmp_swap [] [] h = cc
cmp_swap [] (b ∷ ys) h = cc
cmp_swap (a ∷ xs) [] h = refl
cmp_swap (a ∷ xs) (b ∷ ys) h = elim (cmp_byte-greater a b (cmp xs ys) h) [
  | inl lt ↦ cmp_byte-lt b a (cmp ys xs) lt
  | inr (e, r) ↦ rw e (cmp_byte_self b (cmp ys xs) ∙ cmp_swap xs ys r)
]

pub cmp_trans : (a b c : Bytes) → cmp a b ≡ less → cmp b c ≡ less → cmp a c ≡ less
unfolding cmp
cmp_trans [] [] c h k = k
cmp_trans [] (b ∷ ys) [] h k = cc
cmp_trans [] (b ∷ ys) (c ∷ zs) h k = refl
cmp_trans (a ∷ xs) [] c h k = cc
cmp_trans (a ∷ xs) (b ∷ ys) [] h k = cc
cmp_trans (a ∷ xs) (b ∷ ys) (c ∷ zs) h k = elim (cmp_byte-less a b (cmp xs ys) h) [
  | inl p ↦ elim (cmp_byte-less b c (cmp ys zs) k) [
    | inl q ↦ cmp_byte-lt a c (cmp xs zs) (omega arith)
    | inr (e, r) ↦ cmp_byte-lt a c (cmp xs zs) (omega arith)
  ]
  | inr (e, r) ↦ elim (cmp_byte-less b c (cmp ys zs) k) [
    | inl q ↦ cmp_byte-lt a c (cmp xs zs) (omega arith)
    | inr (f, s) ↦ rw (e ∙ f) (cmp_byte_self c (cmp xs zs) ∙ cmp_trans xs ys zs r s)
  ]
]

-- A key below another is not that key.
pub less-ne : (a b : Bytes) → cmp a b ≡ less → a ≢ b
less-ne a b h e = let r = cmp_refl b in cc

pub greater-ne : (a b : Bytes) → cmp a b ≡ greater → a ≢ b
greater-ne a b h e = let r = cmp_refl b in cc

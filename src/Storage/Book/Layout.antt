-- ===== src/Storage/Book/Layout.antt =====
-- Where the parts of a written book stand: `build_ybb` and the offsets of
-- crates/attic-storage/src/book.rs.
use attic_shogi.Prelude.{
  ℕ, zero, suc, ◌+◌, ◌*◌, ◌%◌, ◌^◌, ◌≤◌, ◌<◌, ◌≡◌, refl, sym, ap, ap₂, ◌∙◌, Bool, List, [], ◌∷◌,
  ◌++◌, length, get_elem?, some, arith,
}
use mathlib.Core.List.{append_assoc}
use mathlib.Core.Option.{none-ne-some, some-injective}
use attic_shogi.Storage.Bytes.{Bytes, take, slice}
use attic_shogi.Storage.Bytes.Laws.{length-++, slice_skip, slice_head}
use attic_shogi.Storage.Book.Build.{RawRecord, moves_bytes, record_bytes, index_bytes, moves_region}
use attic_shogi.Storage.Book.Decode.{All, IsRecord, length-record_bytes}

-- The bytes of moves before record `i`.
abbrev pub before : Bool → (i : ℕ) → List RawRecord → ℕ
before w i [] = 0
before w zero (r ∷ rs) = 0
before w (suc i) (r ∷ rs) = length (moves_bytes w r.moves) + before w i rs

pub All-get {ℓ} :
    {A : Type ℓ} (P : A → Type 0) (xs : List A) (i : ℕ) {x : A}
    → All P xs
    → get_elem? xs i ≡ some x
    → P x
All-get P [] i v e = absurd (none-ne-some _ e)
All-get P (y ∷ ys) zero v e = rw (sym (some-injective _ _ e)) v.0
All-get P (y ∷ ys) (suc i) v e = All-get P ys i v.1 e

pub get_elem?-in {ℓ} :
    {A : Type ℓ} (xs : List A) (i : ℕ) → i < length xs → (x : A) × (get_elem? xs i ≡ some x)
get_elem?-in [] i h = absurd (omega arith)
get_elem?-in (x ∷ xs) zero h = (x, refl)
get_elem?-in (x ∷ xs) (suc i) h = get_elem?-in xs i (omega arith)

pub get_elem?-lt {ℓ} :
    {A : Type ℓ} (xs : List A) (i : ℕ) {x : A} → get_elem? xs i ≡ some x → i < length xs
get_elem?-lt [] i e = absurd (none-ne-some _ e)
get_elem?-lt (y ∷ ys) zero e = omega arith
get_elem?-lt (y ∷ ys) (suc i) e = let h = get_elem?-lt ys i e in omega arith

pub length-index_bytes :
    (w : Bool) (o : ℕ) (rs : List RawRecord)
    → All IsRecord rs
    → length (index_bytes w o rs) ≡ length rs * 44
unfolding index_bytes
length-index_bytes w o [] v = refl
length-index_bytes w o (r ∷ rs) v =
    length-++ (record_bytes (o % 2 ^ 64) r) _
    ∙ ap₂ ◌+◌ (length-record_bytes (o % 2 ^ 64) r v.0)
        (length-index_bytes w (o + length (moves_bytes w r.moves)) rs v.1)
    ∙ omega arith

pub index_bytes-at :
    (w : Bool) (o : ℕ) (rs : List RawRecord) (i : ℕ) (ys : Bytes) {r : RawRecord}
    → All IsRecord rs
    → get_elem? rs i ≡ some r
    → slice (i * 44) 44 (index_bytes w o rs ++ ys) ≡ record_bytes ((o + before w i rs) % 2 ^ 64) r
unfolding index_bytes
index_bytes-at w o [] i ys v e = absurd (none-ne-some _ e)
index_bytes-at w o (q ∷ rs) zero ys {r} v e =
    ap (take 44) (append_assoc (record_bytes (o % 2 ^ 64) q) _ ys)
    ∙ slice_head (record_bytes (o % 2 ^ 64) q) _ 44 (length-record_bytes (o % 2 ^ 64) q v.0)
    ∙ ap₂ record_bytes (ap (λ t. t % 2 ^ 64) (add_zero o)) (some-injective _ _ e)
  where
    add_zero : (a : ℕ) → a ≡ a + 0
    add_zero a = omega arith
index_bytes-at w o (q ∷ rs) (suc i) ys {r} v e =
    ap (slice (suc i * 44) 44) (append_assoc (record_bytes (o % 2 ^ 64) q) _ ys)
    ∙ ap
        (λ t. slice t 44 (
          record_bytes (o % 2 ^ 64) q
          ++ (index_bytes w (o + length (moves_bytes w q.moves)) rs ++ ys)))
        (suc_mul i)
    ∙ slice_skip (record_bytes (o % 2 ^ 64) q) _ 44 (i * 44) 44
        (length-record_bytes (o % 2 ^ 64) q v.0)
    ∙ index_bytes-at w (o + length (moves_bytes w q.moves)) rs i ys v.1 e
    ∙ ap (λ t. record_bytes (t % 2 ^ 64) r) (add_assoc' o _ _)
  where
    suc_mul : (a : ℕ) → suc a * 44 ≡ 44 + a * 44
    suc_mul a = omega arith

    add_assoc' : (a b c : ℕ) → a + b + c ≡ a + (b + c)
    add_assoc' a b c = omega arith

pub moves_region-at :
    (w : Bool) (rs : List RawRecord) (i : ℕ) {r : RawRecord}
    → get_elem? rs i ≡ some r
    → slice (before w i rs) (length (moves_bytes w r.moves)) (moves_region w rs)
      ≡ moves_bytes w r.moves
unfolding moves_region
moves_region-at w [] i e = absurd (none-ne-some _ e)
moves_region-at w (q ∷ rs) zero {r} e =
    rw (sym (some-injective _ _ e))
      (slice_head (moves_bytes w q.moves) (moves_region w rs) (length (moves_bytes w q.moves)) refl)
moves_region-at w (q ∷ rs) (suc i) {r} e =
    slice_skip (moves_bytes w q.moves) (moves_region w rs) (length (moves_bytes w q.moves))
      (before w i rs) (length (moves_bytes w r.moves)) refl
    ∙ moves_region-at w rs i e

pub moves_region-within :
    (w : Bool) (rs : List RawRecord) (i : ℕ) {r : RawRecord}
    → get_elem? rs i ≡ some r
    → before w i rs + length (moves_bytes w r.moves) ≤ length (moves_region w rs)
unfolding moves_region
moves_region-within w [] i e = absurd (none-ne-some _ e)
moves_region-within w (q ∷ rs) zero {r} e =
    let l = length-++ (moves_bytes w q.moves) (moves_region w rs) in
    rw (sym (some-injective _ _ e)) (omega arith)
moves_region-within w (q ∷ rs) (suc i) {r} e =
    let l = length-++ (moves_bytes w q.moves) (moves_region w rs) in
    let h = moves_region-within w rs i e in omega arith

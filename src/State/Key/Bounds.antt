-- ===== src/State/Key/Bounds.antt =====
-- Every hand step is a 64-bit word.
use attic_shogi.Prelude.{
  ℕ, zero, suc, ◌+◌, ◌<◌, List, [], ◌∷◌, Option, none, some, get_or, set, replicate, arith,
}
use attic_shogi.State.Piece.{Color, color_index, PieceKind, kind_index}
use attic_shogi.State.Key.{
  word, Table, set_cell, store_hand, rand64, set_rand, draw_hand, draw_hands, build, hand_step,
  ref_kind_to_index,
}

-- A write of a good value keeps all values good.
get_or-set_keeps {ℓ κ} :
    {A : Type ℓ} (P : A → Type κ) (xs : List A) (i j : ℕ) (v d : A)
    → P v
    → ((k : ℕ) → P (get_or xs k d))
    → P (get_or (set xs i v) j d)
get_or-set_keeps P [] i j v d pv h = h j
get_or-set_keeps P (x ∷ xs) zero zero v d pv h = pv
get_or-set_keeps P (x ∷ xs) zero (suc j) v d pv h = h (suc j)
get_or-set_keeps P (x ∷ xs) (suc i) zero v d pv h = h 0
get_or-set_keeps P (x ∷ xs) (suc i) (suc j) v d pv h =
    get_or-set_keeps P xs i j v d pv (λ k. h (suc k))

abbrev Words : Table → Type 0
Words t = (i j : ℕ) → get_or (get_or t i []) j 0 < word

set_cell-Words : (t : Table) (i j v : ℕ) → v < word → Words t → Words (set_cell t i j v)
set_cell-Words t i j v hv h = λ a.
    get_or-set_keeps (λ (row : List ℕ). (b : ℕ) → get_or row b 0 < word) t i a
      (set (get_or t i []) j v) []
      (λ b. get_or-set_keeps (λ (x : ℕ). x < word) (get_or t i []) j b v 0 hv (h i)) h

store_hand-Words :
    (c : ℕ) (o : Option ℕ) (v : ℕ) (t : Table) → v < word → Words t → Words (store_hand c o v t)
store_hand-Words c none v t hv h = h
store_hand-Words c (some kind) v t hv h = set_cell-Words t c kind v hv h

set_rand-lt : (s : ℕ) → (set_rand s).1 < word
unfolding set_rand rand64
set_rand-lt s = omega arith

draw_hand-Words : (left pr c s : ℕ) (t : Table) → Words t → Words (draw_hand left pr c s t).1
unfolding draw_hand
draw_hand-Words zero pr c s t h = h
draw_hand-Words (suc left) pr c s t h =
    draw_hand-Words left (pr + 1) c (set_rand s).0 _
      (store_hand-Words c (ref_kind_to_index pr) (set_rand s).1 t (set_rand-lt s) h)

draw_hands-Words : (left c s : ℕ) (t : Table) → Words t → Words (draw_hands left c s t).1
unfolding draw_hands
draw_hands-Words zero c s t h = h
draw_hands-Words (suc left) c s t h =
    draw_hands-Words left (c + 1) (draw_hand 7 1 c s t).0 _ (draw_hand-Words 7 1 c s t h)

get_or-replicate_keeps {ℓ κ} :
    {A : Type ℓ} (P : A → Type κ) (n j : ℕ) (v d : A) → P v → P d → P (get_or (replicate n v) j d)
get_or-replicate_keeps P zero j v d pv pd = pd
get_or-replicate_keeps P (suc n) zero v d pv pd = pv
get_or-replicate_keeps P (suc n) (suc j) v d pv pd = get_or-replicate_keeps P n j v d pv pd

zeros-Words : (n : ℕ) → Words (replicate n (replicate 8 0))
zeros-Words n i j =
    get_or-replicate_keeps (λ (row : List ℕ). get_or row j 0 < word) n i (replicate 8 0) []
      (get_or-replicate_keeps (λ (x : ℕ). x < word) 8 j 0 0 (omega arith) (omega arith))
      (omega arith)

-- Every hand step of the table that `build` makes is a 64-bit word.
pub hand_step-lt : (c : Color) (k : PieceKind) → hand_step c k < word
unfolding hand_step build
hand_step-lt c k =
    draw_hands-Words 2 0 _ (replicate 2 (replicate 8 0)) (zeros-Words 2) (color_index c)
      (kind_index k)

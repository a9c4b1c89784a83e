-- ===== src/State/Key/Tables.antt =====
-- The loops of `build` in crates/attic-state/src/key.rs, cell by cell: which draw of the generator ends
-- in a cell of the table.
use attic_shogi.Prelude.{
  ℕ, zero, suc, ◌+◌, ◌*◌, ◌<◌, ◌≤◌, ◌≡◌, refl, sym, ap, ◌∙◌, Bool, true, false, ◌&&◌, ◌==◌, ==_refl,
  ==_ne, leb, if◌then◌else◌, List, [], Option, none, some, get_or, set, replicate, length,
  length-set, get_or-set_self, get_or-set_ne, get_or-replicate, ℕ_discrete, arith,
}
use attic_shogi.State.Square.{square_count}
use attic_shogi.State.Key.{
  ref_seed, piece_codes, set_rand, ref_code_to_slot, Table, set_cell, store, draw_squares,
  draw_pieces,
}

-- The state of the generator after `n` draws from the seed, and what draw `n` gives.
unfoldable pub state_after : ℕ → ℕ
state_after zero = ref_seed
state_after (suc n) = (set_rand (state_after n)).0

unfoldable pub drawn : ℕ → ℕ
drawn n = (set_rand (state_after n)).1

abbrev pub cell : Table → ℕ → ℕ → ℕ
cell t i j = get_or (get_or t i []) j 0

-- A row for each slot, of 81 words.
pub record IsTable (t : Table) : Type 0 where
  pub rows : length t ≡ piece_codes
  pub columns : (i : ℕ) → i < piece_codes → length (get_or t i []) ≡ square_count

pub blank-IsTable : IsTable (replicate piece_codes (replicate square_count 0))
blank-IsTable = record {
  rows = refl;
  columns = λ i h. ap length (get_or-replicate piece_codes i (replicate square_count 0) [] h);
}

-- Whether a code writes to slot `i`.
abbrev pub hits : Option ℕ → ℕ → Bool
hits none i = false
hits (some slot) i = slot == i

cell-set_cell :
    (t : Table) (i j v i' j' : ℕ)
    → IsTable t
    → i < piece_codes
    → j < square_count
    → cell (set_cell t i j v) i' j' ≡ (if (i == i') && (j == j') then v else cell t i' j')
cell-set_cell t i j v i' j' c hi hj =
    let row = get_or t i [] in
    let size : i < length t = rw (c.rows) hi in
    let width : j < length row = rw (c.columns i hi) hj in
    elim (ℕ_discrete i i') [
      | yes same ↦
          rw (← same, ==_refl i, get_or-set_self t i (set row j v) [] size)
            (elim (ℕ_discrete j j') [
              | yes here ↦ rw (← here, ==_refl j) (get_or-set_self row j v 0 width)
              | no there ↦ rw (==_ne j j' there) (get_or-set_ne row j j' v 0 there)
            ])
      | no other ↦
          rw (==_ne i i' other)
            (ap (λ (r : List ℕ). get_or r j' 0) (get_or-set_ne t i i' (set row j v) [] other))
    ]

set_cell-IsTable :
    (t : Table) (i j v : ℕ) → IsTable t → i < piece_codes → IsTable (set_cell t i j v)
set_cell-IsTable t i j v c h = record {
  rows = length-set t i (set (get_or t i []) j v) ∙ c.rows;
  columns = λ k hk. elim (ℕ_discrete i k) [
    | yes same ↦
        rw (← same, get_or-set_self t i (set (get_or t i []) j v) [] (rw (c.rows) h))
          (length-set (get_or t i []) j v ∙ c.columns i h)
    | no other ↦ rw (get_or-set_ne t i k (set (get_or t i []) j v) [] other) (c.columns k hk)
  ];
}

store-IsTable :
    (o : Option ℕ) (j v : ℕ) (t : Table)
    → ((i : ℕ) → o ≡ some i → i < piece_codes)
    → IsTable t
    → IsTable (store o j v t)
store-IsTable none j v t fits c = c
store-IsTable (some i) j v t fits c = set_cell-IsTable t i j v c (fits i refl)

cell-store :
    (o : Option ℕ) (j v : ℕ) (t : Table) (i' j' : ℕ)
    → ((i : ℕ) → o ≡ some i → i < piece_codes)
    → j < square_count
    → IsTable t
    → cell (store o j v t) i' j' ≡ (if hits o i' && (j == j') then v else cell t i' j')
cell-store none j v t i' j' fits hj c = refl
cell-store (some i) j v t i' j' fits hj c = cell-set_cell t i j v i' j' c (fits i refl) hj

slot-lt : (pc i : ℕ) → ref_code_to_slot pc ≡ some i → i < piece_codes
unfolding ref_code_to_slot
slot-lt pc i e = ground arith

-- The loop over the squares of a code: the generator moves on by a draw per square.
draw_squares-state :
    (left sq pc n : ℕ) (t : Table)
    → (draw_squares left sq pc (state_after n) t).0 ≡ state_after (n + left)
unfolding draw_squares state_after drawn
draw_squares-state zero sq pc n t =
    let none_left : n ≡ n + 0 = omega arith in ap state_after none_left
draw_squares-state (suc left) sq pc n t =
    let on : suc n + left ≡ n + suc left = omega arith in
    draw_squares-state left (sq + 1) pc (suc n) (store (ref_code_to_slot pc) sq (drawn n) t)
    ∙ ap state_after on

draw_squares-IsTable :
    (left sq pc s : ℕ) (t : Table) → IsTable t → IsTable (draw_squares left sq pc s t).1
unfolding draw_squares
draw_squares-IsTable zero sq pc s t c = c
draw_squares-IsTable (suc left) sq pc s t c =
    draw_squares-IsTable left (sq + 1) pc (set_rand s).0 _
      (store-IsTable (ref_code_to_slot pc) sq (set_rand s).1 t (slot-lt pc) c)

-- It leaves the slots that are not its code's, and the squares before it.
draw_squares-other :
    (left sq pc s : ℕ) (t : Table) (i j : ℕ)
    → IsTable t
    → sq + left ≤ square_count
    → (hits (ref_code_to_slot pc) i && leb sq j) ≡ false
    → cell (draw_squares left sq pc s t).1 i j ≡ cell t i j
unfolding draw_squares
draw_squares-other zero sq pc s t i j c l h = refl
draw_squares-other (suc left) sq pc s t i j c l h =
    draw_squares-other left (sq + 1) pc (set_rand s).0 _ i j
      (store-IsTable (ref_code_to_slot pc) sq (set_rand s).1 t (slot-lt pc) c) (omega arith)
      (later (hits (ref_code_to_slot pc) i) h)
    ∙ cell-store (ref_code_to_slot pc) sq (set_rand s).1 t i j (slot-lt pc) (omega arith) c
    ∙ now (hits (ref_code_to_slot pc) i) h
  where
    later : (b : Bool) → (b && leb sq j) ≡ false → (b && leb (sq + 1) j) ≡ false
    later b h = ground arith

    now :
        (b : Bool)
        → (b && leb sq j) ≡ false
        → (if b && (sq == j) then (set_rand s).1 else cell t i j) ≡ cell t i j
    now b h = ground arith

-- It writes the draws in a row from its first square on.
draw_squares-cell :
    (left sq pc n : ℕ) (t : Table) (i k : ℕ)
    → IsTable t
    → sq + left ≤ square_count
    → k < left
    → hits (ref_code_to_slot pc) i ≡ true
    → cell (draw_squares left sq pc (state_after n) t).1 i (sq + k) ≡ drawn (n + k)
unfolding draw_squares state_after drawn
draw_squares-cell zero sq pc n t i k c l h hit = absurd (omega arith)
draw_squares-cell (suc left) sq pc n t i zero c l h hit =
    let here : sq + 0 ≡ sq = omega arith in
    let draw : n + 0 ≡ n = omega arith in
    let past : leb (sq + 1) sq ≡ false = ground arith in
    rw (here, draw)
      (draw_squares-other left (sq + 1) pc (state_after (suc n)) _ i sq
          (store-IsTable (ref_code_to_slot pc) sq (drawn n) t (slot-lt pc) c) (omega arith)
          (rw (hit, past) refl)
        ∙ cell-store (ref_code_to_slot pc) sq (drawn n) t i sq (slot-lt pc) (omega arith) c
        ∙ rw (hit, ==_refl sq) refl)
draw_squares-cell (suc left) sq pc n t i (suc k) c l h hit =
    let there : sq + suc k ≡ sq + 1 + k = omega arith in
    let draw : n + suc k ≡ suc n + k = omega arith in
    rw (there, draw)
      (draw_squares-cell left (sq + 1) pc (suc n) _ i k
        (store-IsTable (ref_code_to_slot pc) sq (drawn n) t (slot-lt pc) c) (omega arith)
        (omega arith) hit)

-- The loop over the codes leaves a slot that is none of theirs.
draw_pieces-other :
    (left pc s : ℕ) (t : Table) (i j : ℕ)
    → IsTable t
    → ((c : ℕ) → pc ≤ c → c < pc + left → hits (ref_code_to_slot c) i ≡ false)
    → cell (draw_pieces left pc s t).1 i j ≡ cell t i j
unfolding draw_pieces
draw_pieces-other zero pc s t i j c h = refl
draw_pieces-other (suc left) pc s t i j c h =
    let (s', t') = draw_squares square_count 0 pc s t in
    draw_pieces-other left (pc + 1) s' t' i j (draw_squares-IsTable square_count 0 pc s t c)
      (λ x p q. h x (omega arith) (omega arith))
    ∙ draw_squares-other square_count 0 pc s t i j c (omega arith)
        (rw (h pc (omega arith) (omega arith)) refl)

-- The last code with a slot fills it with 81 draws in a row.
pub draw_pieces-cell :
    (left pc n : ℕ) (t : Table) (i j k : ℕ)
    → IsTable t
    → k < left
    → j < square_count
    → hits (ref_code_to_slot (pc + k)) i ≡ true
    → ((c : ℕ) → pc + k < c → c < pc + left → hits (ref_code_to_slot c) i ≡ false)
    → cell (draw_pieces left pc (state_after n) t).1 i j ≡ drawn (n + k * square_count + j)
unfolding draw_pieces
draw_pieces-cell zero pc n t i j k c h hj hit last = absurd (omega arith)
draw_pieces-cell (suc left) pc n t i j zero c h hj hit last =
    let here : pc + 0 ≡ pc = omega arith in
    let first : j ≡ 0 + j = omega arith in
    let draw : n + j ≡ n + 0 * square_count + j = omega arith in
    draw_pieces-other left (pc + 1) _ _ i j
      (draw_squares-IsTable square_count 0 pc (state_after n) t c)
      (λ x p q. last x (omega arith) (omega arith))
    ∙ ap (cell (draw_squares square_count 0 pc (state_after n) t).1 i) first
    ∙ draw_squares-cell square_count 0 pc n t i j c (omega arith) hj
        (ap (λ x. hits (ref_code_to_slot x) i) (sym here) ∙ hit)
    ∙ ap drawn draw
draw_pieces-cell (suc left) pc n t i j (suc k) c h hj hit last =
    let next : pc + 1 + k ≡ pc + suc k = omega arith in
    let draw : n + square_count + k * square_count + j ≡ n + suc k * square_count + j =
      omega arith in
    let t' = (draw_squares square_count 0 pc (state_after n) t).1 in
    ap (λ s. cell (draw_pieces left (pc + 1) s t').1 i j) (draw_squares-state square_count 0 pc n t)
    ∙ draw_pieces-cell left (pc + 1) (n + square_count) t' i j k
        (draw_squares-IsTable square_count 0 pc (state_after n) t c) (omega arith) hj
        (ap (λ x. hits (ref_code_to_slot x) i) next ∙ hit)
        (λ x p q. last x (omega arith) (omega arith))
    ∙ ap drawn draw

pub draw_pieces-state :
    (left pc n : ℕ) (t : Table)
    → (draw_pieces left pc (state_after n) t).0 ≡ state_after (n + left * square_count)
unfolding draw_pieces
draw_pieces-state zero pc n t =
    let none_left : n ≡ n + 0 * square_count = omega arith in ap state_after none_left
draw_pieces-state (suc left) pc n t =
    let on : n + square_count + left * square_count ≡ n + suc left * square_count = omega arith in
    let t' = (draw_squares square_count 0 pc (state_after n) t).1 in
    ap (λ s. (draw_pieces left (pc + 1) s t').0) (draw_squares-state square_count 0 pc n t)
    ∙ draw_pieces-state left (pc + 1) (n + square_count) t'
    ∙ ap state_after on

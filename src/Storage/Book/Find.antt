-- ===== src/Storage/Book/Find.antt =====
-- The binary search of `Book::probe`, crates/attic-storage/src/book.rs: on a sorted
-- index it finds what the index holds.
use attic_shogi.Prelude.{
  ℕ, zero, suc, ◌+◌, ◌-◌, ◌/◌, ◌^◌, ◌≤◌, ◌<◌, ◌≡◌, ◌≢◌, refl, sym, ap, ◌∙◌, Bool, inl, inr, none,
  some, arith,
}
use native.Mathlib.Decide.{dec_lt}
use attic_shogi.Prelude.Result.{ok}
use attic_shogi.Storage.Bytes.{Bytes}
use attic_shogi.Storage.Book.{
  Book, IndexEntry, less, greater, cmp, read_index_entry, answer, probe_loop, probe, probe_fuel,
}
use attic_shogi.Storage.Book.Keys.{eq_of_cmp, less-ne, greater-ne, cmp_swap, cmp_trans}
use attic_shogi.Storage.Book.Rounds.{
  Answer, Order-cases, loop-empty, loop-less, loop-greater, loop-equal, ltb-false,
}

-- The index from record 0 on, as `entry` lists it, is read without an error, and its keys ascend.
pub record IsIndex (b : Book) (entry : ℕ → IndexEntry) : Type 0 where
  pub small : b.record_count < 2 ^ 63
  pub reads : (i : ℕ) → i < b.record_count → read_index_entry b i ≡ ok (some (entry i))
  pub ascends :
      (i j : ℕ) → i < j → j < b.record_count → cmp (entry i).packed (entry j).packed ≡ less

-- A probe gives the answer of the record with the key, or a miss where no record has it.
pub data Found (b : Book) (entry : ℕ → IndexEntry) (packed : Bytes) (game_ply : ℕ) (ignore : Bool)
    : Answer → Type 0 where
  hit :
      (i : ℕ)
      → i < b.record_count
      → (entry i).packed ≡ packed
      → Found b entry packed game_ply ignore (some (answer b (entry i) game_ply ignore))
  miss :
      ((i : ℕ) → i < b.record_count → (entry i).packed ≢ packed)
      → Found b entry packed game_ply ignore (some (ok none))

module _ {b : Book} {entry : ℕ → IndexEntry} (v : IsIndex b entry) (packed : Bytes) (game_ply : ℕ)
    (ignore : Bool) where
  -- A key below that of a record is the key of no later one, and a key above of no earlier one.
  later-ne :
      (m i : ℕ)
      → cmp packed (entry m).packed ≡ less
      → m ≤ i
      → i < b.record_count
      → (entry i).packed ≢ packed
  later-ne m i o p q e = elim (dec_lt m i) [
    | yes r ↦
        less-ne packed (entry i).packed
          (cmp_trans packed (entry m).packed (entry i).packed o (v.ascends m i r q)) (sym e)
    | no r ↦
        let same : m ≡ i = omega arith in
        less-ne packed (entry m).packed o (sym e ∙ ap (λ j. (entry j).packed) (sym same))
  ]

  earlier-ne :
      (m i : ℕ)
      → cmp packed (entry m).packed ≡ greater
      → i ≤ m
      → m < b.record_count
      → (entry i).packed ≢ packed
  earlier-ne m i o p q e = elim (dec_lt i m) [
    | yes r ↦
        less-ne (entry i).packed packed
          (cmp_trans (entry i).packed (entry m).packed packed (v.ascends i m r q)
            (cmp_swap packed (entry m).packed o))
          e
    | no r ↦
        let same : m ≡ i = omega arith in
        greater-ne packed (entry m).packed o (sym e ∙ ap (λ j. (entry j).packed) (sym same))
  ]

  module _ (left right : ℕ) where
    -- Everything outside `left..right` is known to have another key.
    abbrev Outside : Type 0
    Outside =
        (right ≤ b.record_count)
        × ((i : ℕ) → i < left → i < b.record_count → (entry i).packed ≢ packed)
        × ((i : ℕ) → right ≤ i → i < b.record_count → (entry i).packed ≢ packed)

    empty-Found :
        (fuel : ℕ)
        → right ≤ left
        → Outside
        → Found b entry packed game_ply ignore
            (probe_loop (suc fuel) b packed game_ply ignore left right)
    empty-Found fuel p (w, lo, hi) =
        rw (loop-empty b packed game_ply ignore fuel left right (ltb-false left right p))
          (miss (λ i q. elim (dec_lt i left) [ yes r ↦ lo i r q | no r ↦ hi i (omega arith) q ]))

  pub probe_loop-Found :
      (k fuel left right : ℕ)
      → right - left < 2 ^ k
      → k < fuel
      → Outside left right
      → Found b entry packed game_ply ignore (probe_loop fuel b packed game_ply ignore left right)
  probe_loop-Found k zero left right h f o = absurd (omega arith)
  probe_loop-Found zero (suc fuel) left right h f o = empty-Found left right fuel (omega arith) o
  probe_loop-Found (suc k) (suc fuel) left right h f (w, lo, hi) = elim (dec_lt left right) [
    | no p ↦ empty-Found left right fuel (omega arith) (w, lo, hi)
    | yes p ↦
        let s = v.small in
        let small : right < 2 ^ 63 = omega arith in
        let m = left + (right - left) / 2 in
        let below : m < b.record_count = omega arith in
        let r = v.reads m below in
        elim (Order-cases (cmp packed (entry m).packed)) [
          | inl o ↦ rw (loop-less b packed game_ply ignore fuel left right p small (entry m) r o) (
              probe_loop-Found k fuel left m (omega arith) (omega arith)
                (omega arith, lo, λ i q. later-ne m i o q))
          | inr (inl o) ↦
              rw (loop-equal b packed game_ply ignore fuel left right p small (entry m) r o)
                (hit m below (sym (eq_of_cmp packed (entry m).packed o)))
          | inr (inr o) ↦
              rw (loop-greater b packed game_ply ignore fuel left right p small (entry m) r o) (
                probe_loop-Found k fuel (m + 1) right (omega arith) (omega arith)
                  (w, λ i q _. earlier-ne m i o (omega arith) below, hi))
        ]
  ]

  pub probe-Found : Found b entry packed game_ply ignore (probe b packed game_ply ignore)
  unfolding probe
  probe-Found =
      let s = v.small in
      probe_loop-Found 63 probe_fuel 0 b.record_count (omega arith) (omega arith)
        (omega arith, λ i p _. absurd (omega arith), λ i p q. absurd (omega arith))

-- The key of a record finds that record, and no other.
pub probe-hit :
    {b : Book} {entry : ℕ → IndexEntry}
    → IsIndex b entry
    → (i : ℕ) (game_ply : ℕ) (ignore : Bool) → i < b.record_count
    → probe b (entry i).packed game_ply ignore ≡ some (answer b (entry i) game_ply ignore)
probe-hit {b} {entry} v i game_ply ignore h = on (probe-Found v (entry i).packed game_ply ignore)
  where
    apart : (j k : ℕ) → j < k → k < b.record_count → (entry j).packed ≢ (entry k).packed
    apart j k p q = less-ne (entry j).packed (entry k).packed (v.ascends j k p q)

    on :
        {a : Answer}
        → Found b entry (entry i).packed game_ply ignore a
        → a ≡ some (answer b (entry i) game_ply ignore)
    on (miss n) = absurd (n i h refl)
    on (hit j p e) = elim (dec_lt j i) [
      | yes q ↦ absurd (apart j i q h e)
      | no q ↦ elim (dec_lt i j) [
        | yes r ↦ absurd (apart i j r p (sym e))
        | no r ↦
            let same : j ≡ i = omega arith in
            ap (λ k. some (answer b (entry k) game_ply ignore)) same
      ]
    ]

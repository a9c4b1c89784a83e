-- ===== src/Storage/Book/Search.antt =====
-- The binary search of `Book::probe`, crates/attic-storage/src/book.rs: it ends within its fuel.
use attic_shogi.Prelude.{
  ℕ, zero, suc, ◌+◌, ◌-◌, ◌/◌, ◌^◌, ◌<◌, ◌≡◌, ◌∙◌, Bool, inl, inr, Option, arith,
}
use native.Mathlib.Decide.{dec_lt}
use attic_shogi.Prelude.Result.{Result}
use attic_shogi.Storage.Bytes.{Bytes}
use attic_shogi.Storage.Book.{
  Book, BookError, IndexEntry, cmp, read_index_entry, probe_loop, probe, probe_fuel,
}
use attic_shogi.Storage.Book.Rounds.{
  Ends, Reading, broken, ended, entry, reading, Order-cases, loop-empty, loop-err, loop-none,
  loop-less, loop-greater, loop-equal, ltb-false,
}

module _ (b : Book) (packed : Bytes) (game_ply : ℕ) (ignore : Bool) where
  -- A round ends where the searches of both halves do.
  round-Ends :
      (fuel left right : ℕ)
      → left < right
      → right < 2 ^ 63
      → Ends (probe_loop fuel b packed game_ply ignore left (left + (right - left) / 2))
      → Ends (probe_loop fuel b packed game_ply ignore (left + (right - left) / 2 + 1) right)
      → Ends (probe_loop (suc fuel) b packed game_ply ignore left right)
  round-Ends fuel left right p w lower upper =
      on (reading (read_index_entry b (left + (right - left) / 2)))
    where
      on :
          ((s : Result BookError (Option IndexEntry)) × (read_index_entry b
                (left + (right - left) / 2)
              ≡ s)
            × Reading s)
          → Ends (probe_loop (suc fuel) b packed game_ply ignore left right)
      on (_, e, broken x) = (_, loop-err b packed game_ply ignore fuel left right p w x e)
      on (_, e, ended) = (_, loop-none b packed game_ply ignore fuel left right p w e)
      on (_, e, entry x) = elim (Order-cases (cmp packed x.packed)) [
        | inl o ↦ (_, loop-less b packed game_ply ignore fuel left right p w x e o ∙ lower.1)
        | inr (inl o) ↦ (_, loop-equal b packed game_ply ignore fuel left right p w x e o)
        | inr (inr o) ↦
            (_, loop-greater b packed game_ply ignore fuel left right p w x e o ∙ upper.1)
      ]

  -- A range of fewer than 2 ^ k records is searched in k + 1 rounds.
  pub probe_loop-Ends :
      (k fuel left right : ℕ)
      → right - left < 2 ^ k
      → k < fuel
      → right < 2 ^ 63
      → Ends (probe_loop fuel b packed game_ply ignore left right)
  probe_loop-Ends k zero left right h f w = absurd (omega arith)
  probe_loop-Ends zero (suc fuel) left right h f w =
      (_, loop-empty b packed game_ply ignore fuel left right (ltb-false left right (omega arith)))
  probe_loop-Ends (suc k) (suc fuel) left right h f w = elim (dec_lt left right) [
    | no p ↦ (
      _,
      loop-empty b packed game_ply ignore fuel left right (ltb-false left right (omega arith)),
    )
    | yes p ↦
        round-Ends fuel left right p w
          (probe_loop-Ends k fuel left _ (omega arith) (omega arith) (omega arith))
          (probe_loop-Ends k fuel _ right (omega arith) (omega arith) w)
  ]

-- A probe of a book of fewer than 2 ^ 63 records ends with a result within its fuel of 65 rounds,
-- whatever its data or files give.
pub probe-Ends :
    (b : Book) (packed : Bytes) (game_ply : ℕ) (ignore : Bool)
    → b.record_count < 2 ^ 63
    → Ends (probe b packed game_ply ignore)
unfolding probe
probe-Ends b packed game_ply ignore h =
    probe_loop-Ends b packed game_ply ignore 63 probe_fuel 0 b.record_count (omega arith)
      (omega arith) h

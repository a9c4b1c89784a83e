-- ===== src/Storage/Examples.antt =====
-- A table of two clusters, what is saved in it, and the tables after a few searches.
use attic_shogi.Prelude.{
  ℕ, false, zero, suc, ◌<◌, ◌≡◌, refl, true, [], ◌∷◌, some, get_or, length, arith,
}
use attic_shogi.Prelude.Int.{pos, negsuc}
use attic_shogi.Storage.Entry.{lower, Save, zero_entry, read, save}
use attic_shogi.Storage.Entry.Laws.{IsSave}
use attic_shogi.Storage.Entry.Policy.{view, stays, merge, view-save}
use attic_shogi.Storage.Table.{
  cluster_size, TranspositionTable, new, zero_cluster, resize, new_search, Located, locate,
  write_at,
}
use attic_shogi.Storage.Table.Valid.{IsTable, start, resized, searched, Reached-IsTable}
use attic_shogi.Storage.Table.Laws.{IsSlot, locate-IsSlot, locate-write_at}

abbrev small : TranspositionTable
small = record { table = zero_cluster ∷ zero_cluster ∷ []; generation8 = 3 }

small-IsTable : IsTable small
small-IsTable = record { even = refl; clusters = clusters; generation = omega arith }
  where
    clusters : (i : ℕ) → i < 2 → length (get_or small.table i []) ≡ cluster_size
    clusters zero p = refl
    clusters (suc zero) p = refl
    clusters (suc (suc i)) p = absurd (omega arith)

abbrev deep_save : Save
deep_save = record {
  key = 57005;
  value = negsuc 99;
  pv = true;
  bound = lower;
  depth = pos 12;
  move16 = 5161;
  eval = pos 40;
  generation = 3;
}

deep_save-IsSave : IsSave deep_save
deep_save-IsSave = record {
  key = omega arith;
  move16 = omega arith;
  value = (omega arith, omega arith);
  eval = (omega arith, omega arith);
  depth = (omega arith, omega arith);
  generation = omega arith;
}

-- The same position and generation, ten plies shallower, without a move.
abbrev no_move_save : Save
no_move_save = record deep_save { depth = pos 2; move16 = 0; pv = false }

no_move_save-IsSave : IsSave no_move_save
no_move_save-IsSave = record {
  key = omega arith;
  move16 = omega arith;
  value = (omega arith, omega arith);
  eval = (omega arith, omega arith);
  depth = (omega arith, omega arith);
  generation = omega arith;
}

deep_stays : stays (view (save zero_entry deep_save)) no_move_save ≡ true
unfolding stays save read view attic_shogi.Prelude.Int.◌+ℤ◌ attic_shogi.Prelude.Int.◌-ℤ◌
deep_stays = refl

view-save_example :
    view (save (save zero_entry deep_save) no_move_save)
    ≡ merge (view (save zero_entry deep_save)) no_move_save
view-save_example =
    view-save (save zero_entry deep_save) no_move_save no_move_save-IsSave
      (unfold save in omega arith)

locate-IsSlot_example : (l : Located) × (locate small 57005 1 ≡ some l) × IsSlot small 1 l.slot
locate-IsSlot_example =
    locate-IsSlot small-IsTable (omega arith) 57005 1 (omega arith) (omega arith)

locate-write_at_example :
    (l : Located) × (locate small 57005 1 ≡ some l)
    × ((after : Located) × (locate (write_at small l.slot deep_save) 57005 1 ≡ some after)
        × (after.found ≡ true)
        × (after.slot ≡ l.slot)
        × (after.tt_data
            ≡ read (
                save
                  (get_or (get_or small.table l.slot.cluster []) l.slot.entry zero_entry)
                  deep_save)))
locate-write_at_example =
    locate-write_at small-IsTable (omega arith) 57005 1 (omega arith) (omega arith) deep_save
      deep_save-IsSave refl

Reached-IsTable_example : IsTable (new_search (resize new 1))
Reached-IsTable_example = Reached-IsTable (searched (resized 1 start))

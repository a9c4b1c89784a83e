-- ===== src/Search/Examples.antt =====
-- Tests of the history tables: small updates, one node of one thread, and two threads that race.
use attic_shogi.Prelude.{
  none, ℕ, zero, suc, ◌%◌, ◌^◌, ◌≤◌, ◌≡◌, ◌∙◌, ◌⊎◌, ◌∷◌, [], refl, length-replicate, arith,
}
use attic_shogi.Prelude.Int.{ℤ, pos, negsuc, ◌+ℤ◌, ◌-ℤ◌}
use attic_shogi.State.Piece.{black, white, pawn, rook, Piece, new}
use attic_shogi.Search.History.{
  Table, neg, magnitude, clamp, times, quotient, apply_gravity, get, update, fill, SharedHistories,
  captured_code, capture_history_d, pawn_history_d, correction_history_d, correction_update,
  pawn_update, minor,
}
use attic_shogi.Search.History.Gravity.{apply_gravity-within, apply_gravity-saturates}
use attic_shogi.Search.History.Update.{Within, fill-Within}
use attic_shogi.Search.History.Shared.{Sized, length-fill, shared_tables, new_shared-Sized}
use attic_shogi.Search.History.Tables.{
  capture_new, capture_get, capture_update, correction_get, pawn_get,
}
use attic_shogi.Search.History.ReadBack.{capture_get-update, correction_get-update, pawn_get-update}
use attic_shogi.Search.History.Races.{
  Shared, Step, load, store, Reach, start, later, idle, load_entry, store_entry, races-Within,
  lost_update,
}

abbrev low_entry : ℤ
low_entry = negsuc 6999

gravity_test : apply_gravity low_entry (pos 500) 7183 ≡ negsuc 6012
unfolding apply_gravity ◌-ℤ◌ ◌+ℤ◌
gravity_test = refl

apply_gravity-within_example :
    (magnitude (apply_gravity low_entry (pos 500) 7183) ≤ 7183)
    × (apply_gravity low_entry (pos 500) 7183
        ≡ low_entry
          +ℤ clamp (pos 500) 7183
          -ℤ quotient (times low_entry (magnitude (clamp (pos 500) 7183))) 7183)
apply_gravity-within_example =
    apply_gravity-within low_entry (pos 500) 7183 (omega arith) (omega arith) (omega arith)

apply_gravity-saturates_example :
    (apply_gravity low_entry (pos 9000) 7183 ≡ pos 7183)
    × (apply_gravity low_entry (neg 9000) 7183 ≡ neg 7183)
apply_gravity-saturates_example =
    apply_gravity-saturates low_entry 9000 7183 (omega arith) (omega arith) (omega arith)

abbrev black_rook : Piece
black_rook = new rook black

abbrev white_pawn : Piece
white_pawn = new pawn white

-- A zeroed table.
capture_get-update_example :
    Within capture_history_d
      (capture_update (fill capture_new (pos 0)) black_rook 40 white_pawn (pos 900))
    × (capture_get
          (capture_update (fill capture_new (pos 0)) black_rook 40 white_pawn (pos 900))
          black_rook
          40
          white_pawn
        ≡ apply_gravity
            (capture_get (fill capture_new (pos 0)) black_rook 40 white_pawn)
            (pos 900)
            capture_history_d)
    × ((capture_get
            (capture_update (fill capture_new (pos 0)) black_rook 40 white_pawn (pos 900))
            black_rook
            41
            white_pawn
          ≡ capture_get (fill capture_new (pos 0)) black_rook 41 white_pawn)
        ⊎ (black_rook ≡ black_rook)
          × (◌≡◌ {A = ℕ} 40 41)
          × (captured_code white_pawn ≡ captured_code white_pawn))
capture_get-update_example =
    capture_get-update (fill capture_new (pos 0)) black_rook black_rook 40 41 white_pawn white_pawn
      (pos 900) (length-fill capture_new (pos 0) ∙ length-replicate 41472 (pos 0))
      (fill-Within capture_history_d capture_new (pos 0) (omega arith)) (omega arith) (omega arith)
      (λ e. absurd (ground arith)) (λ e. absurd (ground arith))

abbrev after_correction : SharedHistories
after_correction = correction_update (shared_tables 1) 65536 black minor (negsuc 40)

correction_get-update_example :
    Sized 1 after_correction
    × Within correction_history_d after_correction.correction
    × (correction_get after_correction 65536 black minor
        ≡ apply_gravity
            (correction_get (shared_tables 1) 65536 black minor)
            (negsuc 40)
            correction_history_d)
    × ((correction_get after_correction 0 black minor
          ≡ correction_get (shared_tables 1) 0 black minor)
        ⊎ (65536 % 2 ^ 17 ≡ 0 % 2 ^ 17) × (black ≡ black) × (minor ≡ minor))
correction_get-update_example =
    correction_get-update 1 (shared_tables 1) 65536 0 black black minor minor (negsuc 40)
      ((new_shared-Sized 1).1) ((new_shared-Sized 1).2)

abbrev after_pawn : SharedHistories
after_pawn = pawn_update (shared_tables 0) 8192 black_rook 40 (pos 100)

pawn_get-update_example :
    Sized 0 after_pawn
    × Within pawn_history_d after_pawn.pawn
    × (pawn_get after_pawn 8192 black_rook 40
        ≡ apply_gravity (pawn_get (shared_tables 0) 8192 black_rook 40) (pos 100) pawn_history_d)
    × ((pawn_get after_pawn 0 white_pawn 40 ≡ pawn_get (shared_tables 0) 0 white_pawn 40)
        ⊎ (8192 % 2 ^ 13 ≡ 0 % 2 ^ 13) × (black_rook ≡ white_pawn) × (◌≡◌ {A = ℕ} 40 40))
pawn_get-update_example =
    pawn_get-update 0 (shared_tables 0) 8192 0 black_rook white_pawn 40 40 (pos 100)
      ((new_shared-Sized 0).1) ((new_shared-Sized 0).3) (omega arith) (omega arith)

-- Two threads load the first entry of a table of two, and the first stores.
abbrev small : Table
small = pos 3 ∷ negsuc 5 ∷ []

small-Within : Within 10 small
unfolding get
small-Within zero = omega arith
small-Within (suc zero) = omega arith
small-Within (suc (suc i)) = omega arith

abbrev both_loaded : Shared
both_loaded = load_entry 1 0 (pos 4) (load_entry 0 0 (pos 8) (idle small))

abbrev first_stored : Shared
first_stored = store_entry 10 0 (record { cell = 0; bonus = pos 8; val = pos 3 }) both_loaded

first_stored-Reach : Reach 10 small first_stored
unfolding load_entry
first_stored-Reach =
    later (later (later start (load 0 0 (pos 8) refl)) (load 1 0 (pos 4) refl)) (store 0 _ refl)

races-Within_example : Within 10 first_stored.table
races-Within_example =
    races-Within 10 small first_stored (omega arith) (omega arith) small-Within first_stored-Reach

lost_update_example :
    (first second : Shared) × Reach 10 small first
    × (first.threads 0 ≡ none)
    × (first.table ≡ update small 0 10 (pos 8))
    × Step 10 first second
    × (second.threads ≡ (idle small).threads)
    × (second.table ≡ update small 0 10 (pos 4))
lost_update_example = lost_update 10 0 1 0 (pos 8) (pos 4) small (λ e. omega arith)

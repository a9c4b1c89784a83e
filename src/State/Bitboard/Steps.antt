-- ===== src/State/Bitboard/Steps.antt =====
-- The step tables of crates/attic-state/src/bitboard.rs in coordinates: no step leaves the board or
-- comes back on the far side of it.
use attic_shogi.Prelude.{
  ℕ, ◌^◌, max, ◌≡◌, ◌∙◌, bit_or, Bool, false, ◌&&◌, ◌||◌, ◌==◌, if◌then◌else◌, List, [], ◌∷◌, arith,
}
use attic_shogi.Prelude.Int.{ℤ, pos, negsuc, ◌+ℤ◌, ◌*ℤ◌}
use attic_shogi.Prelude.Bits.{digit, digit-lt, digit-zero, digit-bit_or}
use attic_shogi.Prelude.Masks.{digit-two_pow}
use attic_shogi.State.Square.{Square, IsSquare, file, rank}
use attic_shogi.State.Bitboard.{test}
use attic_shogi.State.Bitboard.Laws.{test-eq_member}
use attic_shogi.State.Bitboard.Rays.{
  on_board, to_index, Delta, step_bits, step_table, file_of, rank_of,
}
use attic_shogi.State.Bitboard.Walk.{member-from_raw}

abbrev pub same_ℤ : ℤ → ℤ → Bool
same_ℤ (pos a) (pos b) = a == b
same_ℤ (negsuc a) (negsuc b) = a == b
same_ℤ _ _ = false

-- Whether a step of the list leads from one file and rank to the other.
abbrev pub leads : List Delta → (sign file rank file' rank' : ℤ) → Bool
leads [] sign file rank file' rank' = false
leads (d ∷ ds) sign file rank file' rank' =
    (same_ℤ (file +ℤ d.df) file' && same_ℤ (rank +ℤ d.dr *ℤ sign) rank')
    || leads ds sign file rank file' rank'

-- A pair of coordinates that is on the board and has the index of a square is that of the square.
index_coordinates :
    (f r : ℤ) (t : Square)
    → IsSquare t
    → (on_board f r && to_index f r == t) ≡ (same_ℤ f (file_of t) && same_ℤ r (rank_of t))
unfolding on_board
index_coordinates (pos f) (pos r) t h = ground arith
index_coordinates (pos f) (negsuc r) t h = ground arith
index_coordinates (negsuc f) (pos r) t h = ground arith
index_coordinates (negsuc f) (negsuc r) t h = ground arith

digit-step_bits :
    (ds : List Delta) (sign file rank : ℤ) (bits : ℕ) (t : Square)
    → IsSquare t
    → digit (step_bits ds sign file rank bits) t
      ≡ max (digit bits t) (if leads ds sign file rank (file_of t) (rank_of t) then 1 else 0)
unfolding step_bits
digit-step_bits [] sign file rank bits t h = omega arith
digit-step_bits (d ∷ ds) sign file rank bits t h =
    let f = file +ℤ d.df in
    let r = rank +ℤ d.dr *ℤ sign in
    let bits' = if on_board f r then bit_or bits (2 ^ to_index f r) else bits in
    digit-step_bits ds sign file rank bits' t h
    ∙ ground (
      arith,
      index_coordinates f r t h,
      digit-bit_or bits (2 ^ to_index f r) t,
      digit-two_pow (to_index f r) t,
      digit-lt bits t,
    )

-- A step table of any steps, with their ranks forward or back, holds of the squares of the board
-- those whose file and rank are the square's own plus a step.
pub step_table-leads :
    (ds : List Delta) (sign : ℤ) (s t : Square)
    → IsSquare t
    → test (step_table ds sign s) t ≡ leads ds sign (file_of s) (rank_of s) (file_of t) (rank_of t)
unfolding step_table
step_table-leads ds sign s t h = ground (
  arith,
  test-eq_member (step_table ds sign s) t,
  member-from_raw (step_bits ds sign (file_of s) (rank_of s) 0) t h,
  digit-step_bits ds sign (file_of s) (rank_of s) 0 t h,
  digit-zero t,
)

-- ===== src/Search/History/Tables.antt =====
-- The tables of crates/attic-search/src/history.rs by their own operations: new tables, reads and
-- updates, each at its index and limit.
use attic_shogi.Prelude.{ℕ, zero, suc, ◌+◌, ◌*◌, ◌^◌, [], ◌∷◌, replicate}
use attic_shogi.Prelude.Int.{ℤ, pos}
use attic_shogi.State.Piece.{Color, Piece}
use attic_shogi.State.Square.{Square, square_count}
use attic_shogi.State.Move.{Move}
use attic_shogi.Search.History.{
  Table, get, update, apply_gravity, capture_index, empty_index, butterfly_index, low_ply_index,
  piece_to_index, cell_index, piece_nb, captured_nb, low_ply_history_size, main_history_d,
  low_ply_history_d, capture_history_d, continuation_history_d, correction_history_d,
  tt_move_history_d, SharedHistories, CorrChannel, corr_index, pawn_index,
}

abbrev pub capture_new : Table
capture_new = replicate (piece_nb * square_count * captured_nb) (pos 0)

unfoldable pub capture_get : Table → Piece → Square → Piece → ℤ
unfolding get capture_index
capture_get t moved s captured = get t (capture_index moved s captured)

unfoldable pub capture_get_empty : Table → Piece → Square → ℤ
unfolding get empty_index
capture_get_empty t moved s = get t (empty_index moved s)

unfoldable pub capture_update : Table → Piece → Square → Piece → ℤ → Table
unfolding update capture_index
capture_update t moved s captured bonus =
    update t (capture_index moved s captured) capture_history_d bonus

abbrev pub butterfly_new : Table
butterfly_new = replicate (2 * 2 ^ 16) (pos 0)

unfoldable pub butterfly_get : Table → Color → Move → ℤ
unfolding get butterfly_index
butterfly_get t us m = get t (butterfly_index us m)

unfoldable pub butterfly_update : Table → Color → Move → ℤ → Table
unfolding update butterfly_index
butterfly_update t us m bonus = update t (butterfly_index us m) main_history_d bonus

abbrev pub low_ply_new : Table
low_ply_new = replicate (low_ply_history_size * 2 ^ 16) (pos 0)

unfoldable pub low_ply_get : Table → ℕ → Move → ℤ
unfolding get low_ply_index
low_ply_get t ply m = get t (low_ply_index ply m)

unfoldable pub low_ply_update : Table → ℕ → Move → ℤ → Table
unfolding update low_ply_index
low_ply_update t ply m bonus = update t (low_ply_index ply m) low_ply_history_d bonus

abbrev pub piece_to_new : Table
piece_to_new = replicate (piece_nb * square_count) (pos 0)

unfoldable pub piece_to_get : Table → Piece → Square → ℤ
unfolding get piece_to_index
piece_to_get t p s = get t (piece_to_index p s)

unfoldable pub piece_to_update : Table → Piece → Square → ℤ → Table
unfolding update piece_to_index
piece_to_update t p s bonus = update t (piece_to_index p s) continuation_history_d bonus

-- `ContinuationHistory`.
abbrev pub continuation_new : Table
continuation_new = replicate (2 * 2 * piece_nb * square_count * (piece_nb * square_count)) (pos 0)

unfoldable pub get_at : Table → (plane : ℕ) → Piece → Square → ℤ
unfolding get cell_index
get_at t plane p s = get t (cell_index plane p s)

unfoldable pub update_at : Table → (plane : ℕ) → Piece → Square → ℤ → Table
unfolding update cell_index
update_at t plane p s bonus = update t (cell_index plane p s) continuation_history_d bonus

-- `ContinuationCorrectionHistory`, whose nested arrays lie as one table.
abbrev pub continuation_correction_new : Table
continuation_correction_new =
    replicate (piece_nb * square_count * (piece_nb * square_count)) (pos 0)

unfoldable pub corr_get_at : Table → (plane : ℕ) → Piece → Square → ℤ
unfolding get cell_index
corr_get_at t plane p s = get t (cell_index plane p s)

unfoldable pub corr_update_at : Table → (plane : ℕ) → Piece → Square → ℤ → Table
unfolding update cell_index
corr_update_at t plane p s bonus = update t (cell_index plane p s) correction_history_d bonus

-- `t[base..base + n]`; the slice stays in the table when the plane is one of it.
unfoldable pub slice : Table → (base n : ℕ) → Table
unfolding get
slice t base zero = []
slice t base (suc n) = get t base ∷ slice t (base + 1) n

unfoldable pub clone_plane : Table → (plane : ℕ) → Table
unfolding slice
clone_plane t plane = slice t (plane * (piece_nb * square_count)) (piece_nb * square_count)

-- `TtMoveHistory`, by its entry.
unfoldable pub tt_move_update : ℤ → (bonus : ℤ) → ℤ
unfolding apply_gravity
tt_move_update entry bonus = apply_gravity entry bonus tt_move_history_d

-- The reads of the shared tables.
unfoldable pub correction_get : SharedHistories → ℕ → Color → CorrChannel → ℤ
unfolding get corr_index
correction_get h key c channel = get h.correction (corr_index h key c channel)

unfoldable pub pawn_get : SharedHistories → ℕ → Piece → Square → ℤ
unfolding get pawn_index
pawn_get h pawn_key p s = get h.pawn (pawn_index h pawn_key p s)

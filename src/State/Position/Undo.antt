-- ===== src/State/Position/Undo.antt =====
-- `undo_move` takes back `do_move`, exactly: the board with its sets, the hands, every key, the
-- turn, the ply, the history and the check cache.
mod Steps
use attic_shogi.Prelude.{
  ℕ, ◌+◌, ◌-◌, ◌%◌, ◌^◌, ◌<◌, ◌≡◌, ◌≢◌, refl, sym, arith, ap, ◌∙◌, Bool, true, false, List, [], ◌∷◌,
  Option, none, some, if◌then◌else◌,
}
use mathlib.Core.Path.{subst}
use attic_shogi.State.Piece.{Piece, Color}
use attic_shogi.State.Board.{get}
use attic_shogi.State.Move.{Move}
use attic_shogi.State.Position.Types.{
  CheckOps, StateInfo, Position, Undo, capture_root, prev_state, base_state,
  prev_state-capture_root, capture_root_lem,
}
use attic_shogi.State.Position.Valid.{
  IsPosition, Playable, drop, board, FitsDrop, FitsBoard, rooted-IsPosition, rooted-Playable,
}
use attic_shogi.State.Position.Moves.{
  ◌>>=◌, piece_before_move, apply_drop, apply_board, apply_move, finish_move, do_move,
  do_move_with_check, unwind, undo_drop, undo_board, undo_move,
}
use Steps.{unwind-finish_move, undo-apply_drop, undo-apply_board, take_captured_rest}

module _ {Info : Type 0} (ops : CheckOps Info) (m : Move) (check : Bool) (prev : StateInfo) where
  -- The result of a move's own step, and its undoing after the turn has passed.
  abbrev Undone : Position Info → Type 0
  Undone pos =
      (applied : Position Info) × (u : Undo) × (apply_move m pos ≡ some (applied, u))
      × (undo_move ops (finish_move ops m check pos.side_to_move prev applied) m u ≡ some pos)

  played-Undone : {pos : Position Info} → IsPosition pos → Playable pos m → Undone pos
  played-Undone {pos} v (drop k dst fits) = (
    apply_drop k dst pos,
    none,
    unfold apply_move in rw (fits.drop, fits.target, fits.kind) refl,
    unfold undo_move in
        rw (fits.drop, fits.target, fits.kind)
          (ap some (
            ap (undo_drop k dst) turned
            ∙ undo-apply_drop k dst pos v fits.square fits.vacant fits.held)),
  )
    where
      turned :
          unwind ops (finish_move ops m check pos.side_to_move prev (apply_drop k dst pos))
          ≡ apply_drop k dst pos
      turned = unfold apply_drop in unwind-finish_move ops m check prev (apply_drop k dst pos) v.ply
  played-Undone {pos} v (board src dst after fits) = (
    apply_board src dst (piece_before_move m after) after pos,
    get pos.board dst,
    unfold apply_move in rw (fits.board_move, fits.target, fits.origin, fits.piece) refl,
    unfold undo_move in
        rw (fits.board_move, fits.target, fits.origin, fits.piece)
          (ap some (
            ap (undo_board src dst (piece_before_move m after) after (get pos.board dst)) turned
            ∙ undo-apply_board src dst (piece_before_move m after) after pos v fits.src_square
                fits.dst_square fits.apart fits.mover fits.room)),
  )
    where
      applied : Position Info
      applied = apply_board src dst (piece_before_move m after) after pos

      rest : (applied.side_to_move ≡ pos.side_to_move) × (applied.ply ≡ pos.ply)
      rest = unfold apply_board in take_captured_rest (get pos.board dst) dst _

      turned : unwind ops (finish_move ops m check pos.side_to_move prev applied) ≡ applied
      turned =
          subst (λ (c : Color). unwind ops (finish_move ops m check c prev applied) ≡ applied)
            rest.0 (unwind-finish_move ops m check prev applied (rw rest.1 v.ply))

module _ {Info : Type 0} where
  -- A playable move in a valid position is played without a panic, whatever the check flag, and
  -- `undo_move` with the returned `Undo` gives back the position, sets, keys and history included,
  -- but for the root that the move may have recorded.
  pub undo_move-do_move :
      (ops : CheckOps Info) (pos : Position Info) (m : Move) (check : Bool)
      → IsPosition pos
      → Playable pos m
      → (after : Position Info) × (u : Undo) × (do_move_with_check ops pos m check
          ≡ some (after, u))
        × (undo_move ops after m u ≡ some (record pos { root = (capture_root pos).root }))
  unfolding do_move_with_check
  undo_move-do_move ops pos m check v p =
      let rooted = capture_root pos in
      let (applied, u, played, back) =
        played-Undone ops m check (base_state pos) (rooted-IsPosition pos v)
          (rooted-Playable pos m p) in
      (
        finish_move ops m check rooted.side_to_move (base_state pos) applied,
        u,
        rw (prev_state-capture_root pos, played)
            (rw (ap (λ (q : Position Info). q.side_to_move) (capture_root_lem pos)) refl),
        back ∙ ap some (capture_root_lem pos),
      )

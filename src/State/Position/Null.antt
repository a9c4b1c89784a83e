-- ===== src/State/Position/Null.antt =====
-- `do_null_move` and `undo_null_move` of position.rs.
use attic_shogi.Prelude.{
  ◌+◌, ◌-◌, ◌%◌, ◌^◌, bit_xor, ◌<◌, ◌≡◌, refl, false, ◌∷◌, Option, none, some, arith, ◌∙◌,
}
use attic_shogi.Prelude.Xor.{xor_cancel}
use attic_shogi.State.Piece.{flip, flip-flip, set_at}
use attic_shogi.State.Key.{side}
use attic_shogi.State.Position.Types.{
  CheckOps, StateInfo, Position, capture_root, prev_state, base_state, prev_state-capture_root,
  capture_root_lem,
}
use attic_shogi.State.Position.Moves.{◌>>=◌, unwind}

module _ {Info : Type 0} where
  -- The pass, given the state before it.
  unfoldable pub pass : CheckOps Info → StateInfo → Position Info → Position Info
  pass ops prev pos =
      let mover = pos.side_to_move in
      let turned : Position Info = record pos {
        side_to_move = flip mover;
        ply = (pos.ply + 1) % 2 ^ 16;
        board_key = bit_xor pos.board_key side;
      } in
      record turned {
        check_info_stack = pos.check_info ∷ pos.check_info_stack;
        check_info =
            ops.compute turned.board turned.side_to_move turned.board_key (some false) none;
        history =
            record {
              hands = turned.hands;
              side_to_move = turned.side_to_move;
              gives_check = false;
              board_key = turned.board_key;
              plies_from_null = 0;
              continuous_check = set_at prev.continuous_check mover 0;
            }
            ∷ pos.history;
      }

  unfoldable pub do_null_move : CheckOps Info → Position Info → Option (Position Info)
  unfolding capture_root prev_state pass
  do_null_move ops pos = do
    let rooted = capture_root pos
    prev ← prev_state rooted
    some (pass ops prev rooted)

  unfoldable pub undo_null_move : CheckOps Info → Position Info → Position Info
  unfolding unwind
  undo_null_move ops pos = unwind ops pos

  undo-pass :
      (ops : CheckOps Info) (prev : StateInfo) (pos : Position Info)
      → pos.ply < 2 ^ 16
      → undo_null_move ops (pass ops prev pos) ≡ pos
  unfolding undo_null_move pass
  undo-pass ops prev pos h = λ i. record pos {
    side_to_move = flip-flip pos.side_to_move i;
    ply = ply_back i;
    board_key = xor_cancel pos.board_key side i;
  }
    where
      ply_back : ((pos.ply + 1) % 2 ^ 16 + 2 ^ 16 - 1) % 2 ^ 16 ≡ pos.ply
      ply_back = omega arith

  -- A null move in a position with a 16-bit ply never panics, and undoing it gives back the position,
  -- but for the root that it may have recorded.
  pub undo-do_null_move :
      (ops : CheckOps Info) (pos : Position Info)
      → pos.ply < 2 ^ 16
      → (after : Position Info) × (do_null_move ops pos ≡ some after)
        × (undo_null_move ops after ≡ record pos { root = after.root })
  unfolding do_null_move pass
  undo-do_null_move ops pos h =
      let rooted = capture_root pos in
      (
        pass ops (base_state pos) rooted,
        rw (prev_state-capture_root pos) refl,
        undo-pass ops (base_state pos) rooted (rw (capture_root_lem pos) h) ∙ capture_root_lem pos,
      )

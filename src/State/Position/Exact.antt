-- ===== src/State/Position/Exact.antt =====
-- Playing a move keeps a position valid and every key exact: the keys that are updated step by
-- step are those of a recomputation, as the tests of position.rs check on random games.
mod Steps
use attic_shogi.Prelude.{
  ℕ, ◌+◌, ◌%◌, ◌^◌, ◌<◌, bit_xor, ◌≡◌, refl, sym, arith, ap, ◌∙◌, Bool, Option, none, some,
}
use attic_shogi.State.Piece.{Color, black, white, flip, Piece}
use attic_shogi.State.Board.{get}
use attic_shogi.State.Move.{Move}
use attic_shogi.State.Key.{side}
use attic_shogi.State.Position.Types.{
  CheckOps, StateInfo, Position, Undo, capture_root, base_state, prev_state-capture_root,
  capture_root_lem,
}
use attic_shogi.State.Position.Moves.{
  ◌>>=◌, piece_before_move, apply_drop, apply_board, apply_move, finish_move, do_move_with_check,
}
use attic_shogi.State.Position.Valid.{
  IsPosition, Playable, drop, board, FitsDrop, FitsBoard, rooted-IsPosition, rooted-Playable,
}
use attic_shogi.State.Position.Hash.{recomputed_board_key, IsExact}
use Steps.{
  apply_drop-IsPosition, apply_drop-IsExact, apply_board-IsPosition, apply_board-IsExact,
  apply_board-turn, board_key_turned,
}

module _ {Info : Type 0} (ops : CheckOps Info) (m : Move) (check : Bool) (prev : StateInfo) where
  finish_move-IsPosition :
      (c : Color) (pos : Position Info)
      → IsPosition pos
      → IsPosition (finish_move ops m check c prev pos)
  unfolding finish_move
  finish_move-IsPosition c pos v = record {
    board = v.board;
    hands = v.hands;
    ply = omega arith;
    hand_key = v.hand_key;
  }

  finish_move-IsExact :
      (c : Color) (pos : Position Info)
      → pos.side_to_move ≡ c
      → IsExact pos
      → IsExact (finish_move ops m check c prev pos)
  unfolding finish_move
  finish_move-IsExact c pos e x = record {
    board_key =
        ap (λ (k : ℕ). bit_xor k side) (x.board_key ∙ ap (recomputed_board_key pos.board) e)
        ∙ sym (board_key_turned pos.board c);
    hand_key = x.hand_key;
    pawn_key = x.pawn_key;
    minor_piece_key = x.minor_piece_key;
    non_pawn_key = x.non_pawn_key;
  }

  -- The result of a move's own step is valid and exact, and still on the turn of the mover.
  abbrev Stepped : Position Info → Type 0
  Stepped pos =
      (applied : Position Info) × (u : Undo) × (apply_move m pos ≡ some (applied, u))
      × (applied.side_to_move ≡ pos.side_to_move)
      × IsPosition applied
      × IsExact applied

  played-Stepped :
      {pos : Position Info} → IsPosition pos → Playable pos m → IsExact pos → Stepped pos
  played-Stepped {pos} v (drop k dst fits) x = (
    apply_drop k dst pos,
    none,
    unfold apply_move in rw (fits.drop, fits.target, fits.kind) refl,
    unfold apply_drop in refl,
    apply_drop-IsPosition v fits,
    apply_drop-IsExact v fits x,
  )
  played-Stepped {pos} v (board src dst after fits) x = (
    apply_board src dst (piece_before_move m after) after pos,
    get pos.board dst,
    unfold apply_move in rw (fits.board_move, fits.target, fits.origin, fits.piece) refl,
    apply_board-turn v fits,
    apply_board-IsPosition v fits,
    apply_board-IsExact v fits x,
  )

module _ {Info : Type 0} where
  rooted-IsExact : (pos : Position Info) → IsExact pos → IsExact (capture_root pos)
  rooted-IsExact pos x = rw (capture_root_lem pos) (record {
    board_key = x.board_key;
    hand_key = x.hand_key;
    pawn_key = x.pawn_key;
    minor_piece_key = x.minor_piece_key;
    non_pawn_key = x.non_pawn_key;
  })

  -- A playable move in a valid position with exact keys is played without a panic, whatever the
  -- check flag, and the position after it is valid and has exact keys: the incremental board, hand,
  -- pawn, minor piece and non-pawn keys are those of a recomputation.
  pub do_move-IsExact :
      (ops : CheckOps Info) (pos : Position Info) (m : Move) (check : Bool)
      → IsPosition pos
      → IsExact pos
      → Playable pos m
      → (after : Position Info) × (u : Undo) × (do_move_with_check ops pos m check
          ≡ some (after, u))
        × IsPosition after
        × IsExact after
  unfolding do_move_with_check
  do_move-IsExact ops pos m check v x p =
      let rooted = capture_root pos in
      let prev = base_state pos in
      let (applied, u, played, turn, valid, exact) =
        played-Stepped ops m check prev (rooted-IsPosition pos v) (rooted-Playable pos m p)
          (rooted-IsExact pos x) in
      let same : applied.side_to_move ≡ pos.side_to_move =
        turn ∙ ap (λ (q : Position Info). q.side_to_move) (capture_root_lem pos) in
      (
        finish_move ops m check pos.side_to_move prev applied,
        u,
        rw (prev_state-capture_root pos, played) refl,
        finish_move-IsPosition ops m check prev pos.side_to_move applied valid,
        finish_move-IsExact ops m check prev pos.side_to_move applied same exact,
      )

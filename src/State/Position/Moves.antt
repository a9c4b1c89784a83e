-- ===== src/State/Position/Moves.antt =====
-- `do_move_with_check`, `do_move` and `undo_move` of position.rs. `none` is a panic of a decoder on
-- a malformed move, or of the missing root.
use attic_shogi.Prelude.{
  ◌+◌, ◌-◌, ◌%◌, ◌^◌, bit_xor, Bool, List, [], ◌∷◌, Option, none, some, if◌then◌else◌,
}
use attic_shogi.State.Piece.{Color, flip, PieceKind, Piece, new, at, set_at}
use attic_shogi.State.Square.{Square}
use attic_shogi.State.Hand.{increment, decrement}
use attic_shogi.State.Board.{get, put}
use attic_shogi.State.Bitboard
use attic_shogi.State.Move.{
  Move, is_drop, is_promote, to_sq, from_sq, dropped_piece_kind, moved_piece_after,
}
use attic_shogi.State.Key.{psq, hand_step, side}
use attic_shogi.State.Position.Types.{
  CheckOps, StateInfo, Position, Undo, add64, sub64, xor_piece_partial, capture_root, prev_state,
}

infixl 5 ◌>>=◌
abbrev pub ◌>>=◌ {ℓ κ} : {A : Type ℓ} {B : Type κ} → Option A → (A → Option B) → Option B
none >>= f = none
some a >>= f = f a

unfoldable pub piece_before_move : Move → Piece → Piece
piece_before_move m after = if is_promote m then new after.kind after.color else after

-- What is left after `Vec::pop`; the last element stands first.
abbrev pub drop_last {ℓ} : {A : Type ℓ} → List A → List A
drop_last [] = []
drop_last (x ∷ xs) = xs

module _ {Info : Type 0} where
  -- The drop branch of `do_move_with_check`.
  unfoldable pub apply_drop : PieceKind → Square → Position Info → Position Info
  unfolding xor_piece_partial
  apply_drop kind dst pos =
      let mover = pos.side_to_move in
      let piece = new kind mover in
      xor_piece_partial piece dst (record pos {
        board = put pos.board dst (some piece);
        hands = set_at pos.hands mover (decrement (at pos.hands mover) kind);
        board_key = bit_xor pos.board_key (psq piece dst);
        hand_key = sub64 pos.hand_key (hand_step mover kind);
      })

  -- `if let Some(cap) = captured { … }`.
  unfoldable pub take_captured : Option Piece → Square → Position Info → Position Info
  unfolding xor_piece_partial
  take_captured none dst pos = pos
  take_captured (some cap) dst pos =
      let mover = pos.side_to_move in
      xor_piece_partial cap dst (record pos {
        hands = set_at pos.hands mover (increment (at pos.hands mover) cap.kind);
        board_key = bit_xor pos.board_key (psq cap dst);
        hand_key = add64 pos.hand_key (hand_step mover cap.kind);
      })

  -- The board-move branch, with the piece in its forms before and after the move.
  unfoldable pub apply_board :
      (src dst : Square) (before after : Piece) → Position Info → Position Info
  unfolding take_captured xor_piece_partial
  apply_board src dst before after pos =
      let captured = get pos.board dst in
      let pos1 : Position Info = record pos {
        board = put (put pos.board dst (some after)) src none;
      } in
      let pos2 = take_captured captured dst pos1 in
      let pos3 : Position Info = record pos2 {
        board_key = bit_xor (bit_xor pos2.board_key (psq before src)) (psq after dst);
      } in
      xor_piece_partial after dst (xor_piece_partial before src pos3)

  -- Both branches: the changed position and the piece captured.
  unfoldable pub apply_move : Move → Position Info → Option (Position Info × Undo)
  unfolding apply_drop apply_board piece_before_move
  apply_move m pos =
      if is_drop m
      then (do dst ← to_sq m; kind ← dropped_piece_kind m; some (apply_drop kind dst pos, none))
      else (do
        dst ← to_sq m
        src ← from_sq m
        after ← moved_piece_after m
        some (apply_board src dst (piece_before_move m after) after pos, get pos.board dst))

  -- The rest of `do_move_with_check`: turn, ply, check cache and history, given the state before.
  unfoldable pub finish_move :
      CheckOps Info → Move → Bool → (mover : Color) → StateInfo → Position Info → Position Info
  finish_move ops m check mover prev pos =
      let turned : Position Info = record pos {
        side_to_move = flip mover;
        ply = (pos.ply + 1) % 2 ^ 16;
        board_key = bit_xor pos.board_key side;
      } in
      let run = if check then (at prev.continuous_check mover + 2) % 2 ^ 16 else 0 in
      let checkers =
        if check
        then ops.child_checkers turned.board m mover turned.check_info
        else Bitboard.empty in
      record turned {
        check_info_stack = turned.check_info ∷ turned.check_info_stack;
        check_info =
            ops.compute turned.board turned.side_to_move turned.board_key (some check)
              (some checkers);
        history =
            record {
              hands = turned.hands;
              side_to_move = turned.side_to_move;
              gives_check = check;
              board_key = turned.board_key;
              plies_from_null = prev.plies_from_null + 1;
              continuous_check = set_at prev.continuous_check mover run;
            }
            ∷ turned.history;
      }

  unfoldable pub do_move_with_check :
      CheckOps Info → Position Info → Move → Bool → Option (Position Info × Undo)
  unfolding capture_root prev_state apply_move finish_move
  do_move_with_check ops pos m check = do
    let rooted = capture_root pos
    prev ← prev_state rooted
    (applied, undo) ← apply_move m rooted
    some (finish_move ops m check pos.side_to_move prev applied, undo)

  unfoldable pub do_move : CheckOps Info → Position Info → Move → Option (Position Info × Undo)
  unfolding do_move_with_check
  do_move ops pos m =
      do_move_with_check ops pos m (ops.gives_check pos.check_info pos.side_to_move m)

  -- The head of both undos: history, check cache, turn and ply back.
  unfoldable pub unwind : CheckOps Info → Position Info → Position Info
  unwind ops pos = record pos {
    history = drop_last pos.history;
    check_info = elim pos.check_info_stack [
      | [] ↦ ops.compute pos.board pos.side_to_move pos.board_key none none
      | x ∷ xs ↦ x
    ];
    check_info_stack = drop_last pos.check_info_stack;
    side_to_move = flip pos.side_to_move;
    ply = (pos.ply + 2 ^ 16 - 1) % 2 ^ 16;
    board_key = bit_xor pos.board_key side;
  }

  unfoldable pub undo_drop : PieceKind → Square → Position Info → Position Info
  unfolding xor_piece_partial
  undo_drop kind dst pos =
      let mover = pos.side_to_move in
      let piece = new kind mover in
      xor_piece_partial piece dst (record pos {
        board = put pos.board dst none;
        hands = set_at pos.hands mover (increment (at pos.hands mover) kind);
        board_key = bit_xor pos.board_key (psq piece dst);
        hand_key = add64 pos.hand_key (hand_step mover kind);
      })

  unfoldable pub give_back : Option Piece → Square → Position Info → Position Info
  unfolding xor_piece_partial
  give_back none dst pos = pos
  give_back (some cap) dst pos =
      let mover = pos.side_to_move in
      xor_piece_partial cap dst (record pos {
        hands = set_at pos.hands mover (decrement (at pos.hands mover) cap.kind);
        board_key = bit_xor pos.board_key (psq cap dst);
        hand_key = sub64 pos.hand_key (hand_step mover cap.kind);
      })

  unfoldable pub undo_board :
      (src dst : Square) (before after : Piece) → Undo → Position Info → Position Info
  unfolding give_back xor_piece_partial
  undo_board src dst before after captured pos =
      let pos1 : Position Info = record pos {
        board = put (put pos.board src (some before)) dst captured;
        board_key = bit_xor (bit_xor pos.board_key (psq after dst)) (psq before src);
      } in
      give_back captured dst (xor_piece_partial before src (xor_piece_partial after dst pos1))

  unfoldable pub undo_move : CheckOps Info → Position Info → Move → Undo → Option (Position Info)
  unfolding unwind undo_drop undo_board piece_before_move
  undo_move ops pos m captured =
      let pos1 = unwind ops pos in
      if is_drop m
      then (do dst ← to_sq m; kind ← dropped_piece_kind m; some (undo_drop kind dst pos1))
      else (do
        dst ← to_sq m
        src ← from_sq m
        after ← moved_piece_after m
        some (undo_board src dst (piece_before_move m after) after captured pos1))

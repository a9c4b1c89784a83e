-- ===== src/State/Position/Undo/Steps.antt =====
-- The branches of `undo_move` take back those of `do_move_with_check`, field by field.
use attic_shogi.Prelude.{
  ℕ, ◌+◌, ◌-◌, ◌%◌, ◌^◌, ◌<◌, bit_xor, ◌≡◌, ◌≢◌, refl, arith, ap, ◌∙◌, Bool, List, Option, none,
  some, set, set-set, get_or, set-get_or, set_comm,
}
use attic_shogi.Prelude.Xor.{xor_cancel}
use attic_shogi.State.Piece.{
  Color, flip-flip, PieceKind, Piece, new, PerColor, at, set_at, at-set_at_self, set_at-set_at,
  set_at-at,
}
use attic_shogi.State.Square.{Square, IsSquare}
use attic_shogi.State.Hand.{Hand, count, increment, decrement}
use attic_shogi.State.Hand.Laws.{IsHand, cap, decrement-increment, increment-decrement}
use attic_shogi.State.Board.{Board, get, put}
use attic_shogi.State.Board.Laws.{IsBoard, put-squares, put-IsBoard}
use attic_shogi.State.Board.Unique.{eq_of_squares}
use attic_shogi.State.Move.{Move}
use attic_shogi.State.Key.{psq, hand_step, side, word}
use attic_shogi.State.Key.Bounds.{hand_step-lt}
use attic_shogi.State.Position.Types.{CheckOps, StateInfo, Position, xor_piece_partial}
use attic_shogi.State.Position.Types.{xor_pawn, xor_minor, xor_non_pawn}
use attic_shogi.State.Position.Keys.{
  xor_pawn_twice, xor_minor_twice, xor_non_pawn_twice, sub64-add64, add64-sub64,
}
use attic_shogi.State.Position.Valid.{IsPosition}
use attic_shogi.State.Position.Moves.{
  apply_drop, take_captured, apply_board, finish_move, unwind, undo_drop, give_back, undo_board,
}

module _ {Info : Type 0} where
  pub unwind-finish_move :
      (ops : CheckOps Info) (m : Move) (check : Bool) (prev : StateInfo) (pos : Position Info)
      → pos.ply < 2 ^ 16
      → unwind ops (finish_move ops m check pos.side_to_move prev pos) ≡ pos
  unfolding unwind finish_move
  unwind-finish_move ops m check prev pos h = λ i. record pos {
    side_to_move = flip-flip pos.side_to_move i;
    ply = ply_back i;
    board_key = xor_cancel pos.board_key side i;
  }
    where
      ply_back : ((pos.ply + 1) % 2 ^ 16 + 2 ^ 16 - 1) % 2 ^ 16 ≡ pos.ply
      ply_back = omega arith

-- Writing one colour's hand twice, back to what it was.
hands_back :
    (hands : PerColor Hand) (c : Color) (f g : Hand → Hand)
    → g (f (at hands c)) ≡ at hands c
    → let hands' = set_at hands c (f (at hands c)) in set_at hands' c (g (at hands' c)) ≡ hands
hands_back hands c f g e =
    set_at-set_at hands c (f (at hands c)) _
    ∙ ap (set_at hands c) (ap g (at-set_at_self hands c (f (at hands c))) ∙ e)
    ∙ set_at-at hands c

-- Emptying a square again.
put_back_one :
    (b : Board) (s : Square) (o : Option Piece)
    → IsBoard b
    → IsSquare s
    → put (put b s o) s (get b s) ≡ b
unfolding get
put_back_one b s o v h = eq_of_squares (put-IsBoard _ s _ h (put-IsBoard b s o h v)) v (
    put-squares (put b s o) s (get_or b.squares s none)
    ∙ ap (λ (l : List (Option Piece)). set l s (get_or b.squares s none)) (put-squares b s o)
    ∙ set-set b.squares s o (get_or b.squares s none)
    ∙ set-get_or b.squares s none)

-- Four writes to two squares, the later two back to what stood there.
squares_back :
    (l : List (Option Piece)) (s d : ℕ) (x y : Option Piece)
    → s ≢ d
    → set (set (set (set l d x) s y) s (get_or l s none)) d (get_or l d none) ≡ l
squares_back l s d x y n =
    ap (λ (k : List (Option Piece)). set k d (get_or l d none))
      (set-set (set l d x) s y (get_or l s none))
    ∙ set_comm (set l d x) s d (get_or l s none) (get_or l d none) n
    ∙ ap (λ (k : List (Option Piece)). set k s (get_or l s none))
        (set-set l d x (get_or l d none) ∙ set-get_or l d none)
    ∙ set-get_or l s none

put_back_two :
    (b : Board) (s d : Square) (x y : Option Piece)
    → IsBoard b
    → IsSquare s
    → IsSquare d
    → s ≢ d
    → put (put (put (put b d x) s y) s (get b s)) d (get b d) ≡ b
unfolding get
put_back_two b s d x y v hs hd n =
    let b1 = put b d x in
    let b2 = put b1 s y in
    let b3 = put b2 s (get_or b.squares s none) in
    let v2 = put-IsBoard b1 s y hs (put-IsBoard b d x hd v) in
    let v3 = put-IsBoard b2 s (get_or b.squares s none) hs v2 in
    let at3 : b3.squares ≡ set (set (set b.squares d x) s y) s (get_or b.squares s none) =
      rw (put-squares b2 s (get_or b.squares s none), put-squares b1 s y, put-squares b d x) refl in
    eq_of_squares (put-IsBoard b3 d (get_or b.squares d none) hd v3) v (
      put-squares b3 d (get_or b.squares d none)
      ∙ ap (λ (k : List (Option Piece)). set k d (get_or b.squares d none)) at3
      ∙ squares_back b.squares s d x y n)

module _ {Info : Type 0} where
  -- A drop back: the square was empty and the piece was in hand.
  pub undo-apply_drop :
      (k : PieceKind) (dst : Square) (pos : Position Info)
      → IsPosition pos
      → IsSquare dst
      → get pos.board dst ≡ none
      → 0 < count (at pos.hands pos.side_to_move) k
      → undo_drop k dst (apply_drop k dst pos) ≡ pos
  unfolding undo_drop apply_drop
  undo-apply_drop k dst pos v h empty held = λ i. record pos {
    board = board_back i;
    hands =
        hands_back pos.hands mover (λ x. decrement x k) (λ x. increment x k)
          (increment-decrement (at pos.hands mover) k (v.hands mover) held) i;
    board_key = xor_cancel pos.board_key (psq piece dst) i;
    hand_key = add64-sub64 pos.hand_key (hand_step mover k) v.hand_key (hand_step-lt mover k) i;
    pawn_key = xor_pawn_twice piece dst pos.pawn_key i;
    minor_piece_key = xor_minor_twice piece dst pos.minor_piece_key i;
    non_pawn_key = xor_non_pawn_twice piece dst pos.non_pawn_key i;
  }
    where
      mover : Color
      mover = pos.side_to_move

      piece : Piece
      piece = new k mover

      board_back : put (put pos.board dst (some piece)) dst none ≡ pos.board
      board_back = rw empty at (put_back_one pos.board dst (some piece) v.board h)

  -- What the captured piece changed is given back.
  give_back-take_captured :
      (o : Option Piece) (dst : Square) (pos : Position Info)
      → ((c : Color) → IsHand (at pos.hands c))
      → pos.hand_key < word
      → ((p : Piece) → o ≡ some p → count (at pos.hands pos.side_to_move) p.kind < cap p.kind)
      → give_back o dst (take_captured o dst pos) ≡ pos
  unfolding give_back take_captured
  give_back-take_captured none dst pos hands key room = refl
  give_back-take_captured (some p) dst pos hands key room = λ i. record pos {
    hands =
        hands_back pos.hands pos.side_to_move (λ x. increment x p.kind) (λ x. decrement x p.kind)
          (decrement-increment (at pos.hands pos.side_to_move) p.kind (hands pos.side_to_move)
            (room p refl))
          i;
    board_key = xor_cancel pos.board_key (psq p dst) i;
    hand_key =
        sub64-add64 pos.hand_key (hand_step pos.side_to_move p.kind) key
          (hand_step-lt pos.side_to_move p.kind) i;
    pawn_key = xor_pawn_twice p dst pos.pawn_key i;
    minor_piece_key = xor_minor_twice p dst pos.minor_piece_key i;
    non_pawn_key = xor_non_pawn_twice p dst pos.non_pawn_key i;
  }

  -- A capture does not look at the board.
  take_captured_board :
      (o : Option Piece) (dst : Square) (pos : Position Info) (b : Board)
      → take_captured o dst (record pos { board = b })
        ≡ record (take_captured o dst pos) { board = b }
  unfolding take_captured
  take_captured_board none dst pos b = refl
  take_captured_board (some p) dst pos b = refl

  take_captured_same :
      (o : Option Piece) (dst : Square) (pos : Position Info)
      → record (take_captured o dst pos) { board = pos.board } ≡ take_captured o dst pos
  unfolding take_captured
  take_captured_same none dst pos = refl
  take_captured_same (some p) dst pos = refl

  -- The legs of the mover: out of `src`, into `dst`, and both back.
  undo-legs :
      (src dst : Square) (before after : Piece) (captured : Option Piece) (pos : Position Info)
      → undo_board src dst before after captured (
          xor_piece_partial after dst (
            xor_piece_partial before src (record pos {
              board_key = bit_xor (bit_xor pos.board_key (psq before src)) (psq after dst);
            })))
        ≡ give_back captured dst
            (record pos { board = put (put pos.board src (some before)) dst captured })
  unfolding undo_board
  undo-legs src dst before after captured pos = ap (give_back captured dst) λ i. record pos {
    board = put (put pos.board src (some before)) dst captured;
    board_key = keys_back i;
    pawn_key =
        (ap (xor_pawn before src) (xor_pawn_twice after dst _)
            ∙ xor_pawn_twice before src pos.pawn_key)
          i;
    minor_piece_key =
        (ap (xor_minor before src) (xor_minor_twice after dst _)
            ∙ xor_minor_twice before src pos.minor_piece_key)
          i;
    non_pawn_key =
        (ap (xor_non_pawn before src) (xor_non_pawn_twice after dst _)
            ∙ xor_non_pawn_twice before src pos.non_pawn_key)
          i;
  }
    where
      keys_back :
          bit_xor
            (bit_xor
              (bit_xor (bit_xor pos.board_key (psq before src)) (psq after dst))
              (psq after dst))
            (psq before src)
          ≡ pos.board_key
      keys_back =
          ap (λ (x : ℕ). bit_xor x (psq before src))
            (xor_cancel (bit_xor pos.board_key (psq before src)) (psq after dst))
          ∙ xor_cancel pos.board_key (psq before src)

  -- A board move back: the piece came from `src`, and the hand had room for what it captured.
  pub undo-apply_board :
      (src dst : Square) (before after : Piece) (pos : Position Info)
      → IsPosition pos
      → IsSquare src
      → IsSquare dst
      → src ≢ dst
      → get pos.board src ≡ some before
      → ((p : Piece)
          → get pos.board dst ≡ some p
          → count (at pos.hands pos.side_to_move) p.kind < cap p.kind)
      → undo_board src dst before after (get pos.board dst) (apply_board src dst before after pos)
        ≡ pos
  unfolding apply_board
  undo-apply_board src dst before after pos v hs hd n origin room =
      let captured = get pos.board dst in
      let b = put (put pos.board dst (some after)) src none in
      let taken = take_captured captured dst pos in
      undo-legs src dst before after captured
        (take_captured captured dst (record pos { board = b }))
      ∙ ap
          (λ (q : Position Info).
            give_back captured dst
              (record q { board = put (put q.board src (some before)) dst captured }))
          (take_captured_board captured dst pos b)
      ∙ ap (λ (c : Board). give_back captured dst (record taken { board = c }))
          (rw origin at (put_back_two pos.board src dst (some after) none v.board hs hd n))
      ∙ ap (give_back captured dst) (take_captured_same captured dst pos)
      ∙ give_back-take_captured captured dst pos v.hands v.hand_key room

  -- What a captured piece leaves alone.
  pub take_captured_rest :
      (o : Option Piece) (dst : Square) (pos : Position Info)
      → ((take_captured o dst pos).side_to_move ≡ pos.side_to_move)
        × ((take_captured o dst pos).ply ≡ pos.ply)
  unfolding take_captured
  take_captured_rest none dst pos = (refl, refl)
  take_captured_rest (some p) dst pos = (refl, refl)

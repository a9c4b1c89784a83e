-- ===== src/State/Position/Exact/Steps.antt =====
-- Validity and exact keys after the two branches of a move.
use attic_shogi.Prelude.{
  ℕ, ◌+◌, ◌<◌, bit_xor, ◌≡◌, ◌≢◌, refl, sym, arith, ap, ◌∙◌, List, [], ◌∷◌, Option, none, some,
}
use attic_shogi.Prelude.Xor.{xor_right_comm, xor_cancel}
use attic_shogi.State.Piece.{Color, black, white, flip, PieceKind, Piece, new, PerColor, at, set_at}
use attic_shogi.State.Square.{Square, IsSquare}
use attic_shogi.State.Hand.{Hand, count}
use attic_shogi.State.Hand.Laws.{IsHand, cap, increment-IsHand, decrement-IsHand}
use attic_shogi.State.Board.{Board, get, put}
use attic_shogi.State.Board.Laws.{IsBoard, put-IsBoard, get-put_ne}
use attic_shogi.State.Move.{Move}
use attic_shogi.State.Key.{word, psq, side, hand_step}
use attic_shogi.State.Position.Types.{Position, add64, sub64, xor_pawn, xor_minor, xor_non_pawn}
use attic_shogi.State.Position.Moves.{piece_before_move, apply_drop, take_captured, apply_board}
use attic_shogi.State.Position.Valid.{IsPosition, FitsDrop, FitsBoard}
use attic_shogi.State.Position.Hash.{
  fold_squares, xor_psq, xor_side, recomputed_board_key, recomputed_hand_key, recomputed_pawn_key,
  recomputed_minor_key, recomputed_non_pawn_key, IsExact, toggle, IsToggle, fold-put,
}
use attic_shogi.State.Position.Toggles.{
  xor_psq-IsToggle, xor_pawn-IsToggle, xor_minor-IsToggle, xor_non_pawn-IsToggle,
}
use attic_shogi.State.Position.HandSum.{hand_key-increment, hand_key-decrement}

fold_squares-xor :
    (l : List (Option Piece)) (i : Square) (key t : ℕ)
    → fold_squares xor_psq l i (bit_xor key t) ≡ bit_xor (fold_squares xor_psq l i key) t
unfolding fold_squares
fold_squares-xor [] i key t = refl
fold_squares-xor (none ∷ l) i key t = fold_squares-xor l (i + 1) key t
fold_squares-xor (some p ∷ l) i key t =
    ap (fold_squares xor_psq l (i + 1)) (xor_right_comm key t (psq p i))
    ∙ fold_squares-xor l (i + 1) (bit_xor key (psq p i)) t

-- The term of the turn may as well come first.
pub board_key_from_turn :
    (b : Board) (c : Color)
    → recomputed_board_key b c ≡ fold_squares xor_psq b.squares 0 (xor_side c 0)
unfolding recomputed_board_key
board_key_from_turn b black = refl
board_key_from_turn b white = sym (fold_squares-xor b.squares 0 0 side)

-- Passing the turn toggles its term.
pub board_key_turned :
    (b : Board) (c : Color)
    → recomputed_board_key b (flip c) ≡ bit_xor (recomputed_board_key b c) side
unfolding recomputed_board_key flip
board_key_turned b black = refl
board_key_turned b white = sym (xor_cancel (fold_squares xor_psq b.squares 0 0) side)

module _ {ℓ} {K : Type ℓ} {f : Piece → Square → K → K} (t : IsToggle f) where
  -- The key of a drop.
  dropped_key :
      (b : Board) (dst : Square) (p : Piece) (start key : K)
      → IsBoard b
      → IsSquare dst
      → get b dst ≡ none
      → key ≡ fold_squares f b.squares 0 start
      → f p dst key ≡ fold_squares f (put b dst (some p)).squares 0 start
  dropped_key b dst p start key v h empty e =
      ap (f p dst) e
      ∙ sym (
          fold-put t b dst (some p) start h v
          ∙ ap (λ (o : Option Piece). f p dst (toggle f o dst (fold_squares f b.squares 0 start)))
              empty)

  -- The key of a board move, in the order in which the program toggles.
  moved_key :
      (b : Board) (src dst : Square) (before after : Piece) (start key : K)
      → IsBoard b
      → IsSquare src
      → IsSquare dst
      → src ≢ dst
      → get b src ≡ some before
      → key ≡ fold_squares f b.squares 0 start
      → f after dst (f before src (toggle f (get b dst) dst key))
        ≡ fold_squares f (put (put b dst (some after)) src none).squares 0 start
  moved_key b src dst before after start key v hs hd n origin e =
      let b1 = put b dst (some after) in
      let at_src : get b1 src ≡ some before =
        get-put_ne b dst src (some after) (λ q. n (sym q)) ∙ origin in
      let taken = toggle f (get b dst) dst (fold_squares f b.squares 0 start) in
      ap (λ (k : K). f after dst (f before src (toggle f (get b dst) dst k))) e
      ∙ t.swap after before dst src taken
      ∙ sym (
          fold-put t b1 src none start hs (put-IsBoard b dst (some after) hd v)
          ∙ ap (λ (o : Option Piece). toggle f o src (fold_squares f b1.squares 0 start)) at_src
          ∙ ap (f before src) (fold-put t b dst (some after) start hd v))

-- Changing one hand keeps both within their caps.
hands-IsHand :
    (hands : PerColor Hand) (c : Color) (h : Hand)
    → ((d : Color) → IsHand (at hands d))
    → IsHand h
    → (d : Color) → IsHand (at (set_at hands c h) d)
hands-IsHand hands black h v w black = w
hands-IsHand hands black h v w white = v white
hands-IsHand hands white h v w black = v black
hands-IsHand hands white h v w white = w

module _ {Info : Type 0} where
  pub apply_drop-IsPosition :
      {pos : Position Info} {m : Move} {k : PieceKind} {dst : Square}
      → IsPosition pos
      → FitsDrop pos m k dst
      → IsPosition (apply_drop k dst pos)
  unfolding apply_drop
  apply_drop-IsPosition {pos} {k} {dst} v fits = record {
    board = put-IsBoard pos.board dst _ fits.square v.board;
    hands =
        hands-IsHand pos.hands pos.side_to_move _ v.hands
          (decrement-IsHand _ k (v.hands pos.side_to_move));
    ply = v.ply;
    hand_key = omega arith;
  }

  pub apply_drop-IsExact :
      {pos : Position Info} {m : Move} {k : PieceKind} {dst : Square}
      → IsPosition pos
      → FitsDrop pos m k dst
      → IsExact pos
      → IsExact (apply_drop k dst pos)
  unfolding apply_drop
  apply_drop-IsExact {pos} {k} {dst} v fits x = record {
    board_key =
        dropped_key xor_psq-IsToggle pos.board dst piece (xor_side mover 0) pos.board_key v.board
          fits.square fits.vacant (x.board_key ∙ board_key_from_turn pos.board mover)
        ∙ sym (board_key_from_turn (put pos.board dst (some piece)) mover);
    hand_key =
        ap (λ (n : ℕ). sub64 n (hand_step mover k)) x.hand_key
        ∙ sym (hand_key-decrement pos.hands mover k (v.hands mover) fits.held);
    pawn_key =
        unfold recomputed_pawn_key in
        dropped_key xor_pawn-IsToggle pos.board dst piece _ pos.pawn_key v.board fits.square
          fits.vacant x.pawn_key;
    minor_piece_key =
        unfold recomputed_minor_key in
        dropped_key xor_minor-IsToggle pos.board dst piece _ pos.minor_piece_key v.board fits.square
          fits.vacant x.minor_piece_key;
    non_pawn_key =
        unfold recomputed_non_pawn_key in
        dropped_key xor_non_pawn-IsToggle pos.board dst piece _ pos.non_pawn_key v.board fits.square
          fits.vacant x.non_pawn_key;
  }
    where
      mover : Color
      mover = pos.side_to_move

      piece : Piece
      piece = new k mover

  -- What a capture does to the keys.
  record Taken (o : Option Piece) (dst : Square) (pos after : Position Info) : Type 0 where
    side : after.side_to_move ≡ pos.side_to_move
    ply : after.ply ≡ pos.ply
    board : after.board ≡ pos.board
    board_key : after.board_key ≡ toggle xor_psq o dst pos.board_key
    pawn_key : after.pawn_key ≡ toggle xor_pawn o dst pos.pawn_key
    minor_piece_key : after.minor_piece_key ≡ toggle xor_minor o dst pos.minor_piece_key
    non_pawn_key : after.non_pawn_key ≡ toggle xor_non_pawn o dst pos.non_pawn_key

  take_captured-Taken :
      (o : Option Piece) (dst : Square) (pos : Position Info)
      → Taken o dst pos (take_captured o dst pos)
  unfolding take_captured
  take_captured-Taken none dst pos = record {
    side = refl;
    ply = refl;
    board = refl;
    board_key = refl;
    pawn_key = refl;
    minor_piece_key = refl;
    non_pawn_key = refl;
  }
  take_captured-Taken (some p) dst pos = record {
    side = refl;
    ply = refl;
    board = refl;
    board_key = refl;
    pawn_key = refl;
    minor_piece_key = refl;
    non_pawn_key = refl;
  }

  abbrev HasRoom : Option Piece → Position Info → Type 0
  HasRoom o pos =
      (p : Piece) → o ≡ some p → count (at pos.hands pos.side_to_move) p.kind < cap p.kind

  take_captured-hands :
      (o : Option Piece) (dst : Square) (pos : Position Info)
      → ((c : Color) → IsHand (at pos.hands c))
      → (c : Color) → IsHand (at (take_captured o dst pos).hands c)
  unfolding take_captured
  take_captured-hands none dst pos v = v
  take_captured-hands (some p) dst pos v =
      hands-IsHand pos.hands pos.side_to_move _ v (increment-IsHand _ p.kind (v pos.side_to_move))

  take_captured-hand_key :
      (o : Option Piece) (dst : Square) (pos : Position Info)
      → ((c : Color) → IsHand (at pos.hands c))
      → HasRoom o pos
      → pos.hand_key ≡ recomputed_hand_key pos.hands
      → (take_captured o dst pos).hand_key ≡ recomputed_hand_key (take_captured o dst pos).hands
  unfolding take_captured
  take_captured-hand_key none dst pos v room e = e
  take_captured-hand_key (some p) dst pos v room e =
      ap (λ (n : ℕ). add64 n (hand_step pos.side_to_move p.kind)) e
      ∙ sym
          (hand_key-increment pos.hands pos.side_to_move p.kind (v pos.side_to_move) (room p refl))

  take_captured-lt :
      (o : Option Piece) (dst : Square) (pos : Position Info)
      → pos.hand_key < word
      → (take_captured o dst pos).hand_key < word
  unfolding take_captured
  take_captured-lt none dst pos h = h
  take_captured-lt (some p) dst pos h = omega arith

  module _ {pos : Position Info} {m : Move} {src dst : Square} {after : Piece} (v : IsPosition pos)
      (fits : FitsBoard pos m src dst after) where
    abbrev written : Board
    written = put (put pos.board dst (some after)) src none

    abbrev start : Position Info
    start = record pos { board = written }

    taken : Taken (get pos.board dst) dst start (take_captured (get pos.board dst) dst start)
    taken = take_captured-Taken (get pos.board dst) dst start

    pub apply_board-IsPosition :
        IsPosition (apply_board src dst (piece_before_move m after) after pos)
    unfolding apply_board
    apply_board-IsPosition = record {
      board = rw (taken.board) (
          put-IsBoard _ src none fits.src_square
            (put-IsBoard pos.board dst _ fits.dst_square v.board));
      hands = take_captured-hands (get pos.board dst) dst start v.hands;
      ply = rw (taken.ply) v.ply;
      hand_key = take_captured-lt (get pos.board dst) dst start v.hand_key;
    }

    pub apply_board-IsExact :
        IsExact pos → IsExact (apply_board src dst (piece_before_move m after) after pos)
    unfolding apply_board
    apply_board-IsExact x = record {
      board_key =
          rw (taken.board, taken.side, taken.board_key)
            (moved_key xor_psq-IsToggle pos.board src dst _ after (xor_side pos.side_to_move 0)
                pos.board_key v.board fits.src_square fits.dst_square fits.apart fits.mover
                (x.board_key ∙ board_key_from_turn pos.board pos.side_to_move)
              ∙ sym (board_key_from_turn written pos.side_to_move));
      hand_key = take_captured-hand_key (get pos.board dst) dst start v.hands fits.room x.hand_key;
      pawn_key =
          unfold recomputed_pawn_key in
          rw (taken.board, taken.pawn_key)
            (moved_key xor_pawn-IsToggle pos.board src dst _ after _ pos.pawn_key v.board
              fits.src_square fits.dst_square fits.apart fits.mover x.pawn_key);
      minor_piece_key =
          unfold recomputed_minor_key in
          rw (taken.board, taken.minor_piece_key)
            (moved_key xor_minor-IsToggle pos.board src dst _ after _ pos.minor_piece_key v.board
              fits.src_square fits.dst_square fits.apart fits.mover x.minor_piece_key);
      non_pawn_key =
          unfold recomputed_non_pawn_key in
          rw (taken.board, taken.non_pawn_key)
            (moved_key xor_non_pawn-IsToggle pos.board src dst _ after _ pos.non_pawn_key v.board
              fits.src_square fits.dst_square fits.apart fits.mover x.non_pawn_key);
    }

    pub apply_board-turn :
        (apply_board src dst (piece_before_move m after) after pos).side_to_move ≡ pos.side_to_move
    unfolding apply_board
    apply_board-turn = taken.side

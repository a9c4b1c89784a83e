-- ===== src/State/Position/Valid.antt =====
-- The positions that the program keeps, and the moves that can be played in them.
use attic_shogi.Prelude.{◌<◌, ◌^◌, ◌≡◌, ◌≢◌, Option, none, some, true, false}
use attic_shogi.State.Piece.{Color, PieceKind, Piece, at}
use attic_shogi.State.Square.{Square, IsSquare}
use attic_shogi.State.Hand.{count}
use attic_shogi.State.Hand.Laws.{IsHand, cap}
use attic_shogi.State.Board.{get}
use attic_shogi.State.Board.Laws.{IsBoard}
use attic_shogi.State.Move.{Move, is_drop, to_sq, from_sq, dropped_piece_kind, moved_piece_after}
use attic_shogi.State.Key.{word}
use attic_shogi.State.Position.Types.{StateInfo, Position, capture_root, capture_root_lem}
use attic_shogi.State.Position.Moves.{piece_before_move}

module _ {Info : Type 0} where
  -- Exact sets, hands within their caps, a 16-bit ply and a 64-bit hand key.
  pub record IsPosition (pos : Position Info) : Type 0 where
    pub board : IsBoard pos.board
    pub hands : (c : Color) → IsHand (at pos.hands c)
    pub ply : pos.ply < 2 ^ 16
    pub hand_key : pos.hand_key < word

  -- A drop of a kind in hand on an empty square.
  pub record FitsDrop (pos : Position Info) (m : Move) (k : PieceKind) (dst : Square) : Type 0 where
    pub drop : is_drop m ≡ true
    pub target : to_sq m ≡ some dst
    pub kind : dropped_piece_kind m ≡ some k
    pub square : IsSquare dst
    pub vacant : get pos.board dst ≡ none
    pub held : 0 < count (at pos.hands pos.side_to_move) k

  -- A move of the piece on `src` to another square; the hand has room for the piece that it takes,
  -- which is no king then.
  pub record FitsBoard (pos : Position Info) (m : Move) (src dst : Square) (after : Piece)
      : Type 0 where
    pub board_move : is_drop m ≡ false
    pub origin : from_sq m ≡ some src
    pub target : to_sq m ≡ some dst
    pub piece : moved_piece_after m ≡ some after
    pub src_square : IsSquare src
    pub dst_square : IsSquare dst
    pub apart : src ≢ dst
    pub mover : get pos.board src ≡ some (piece_before_move m after)
    pub room :
        (p : Piece)
        → get pos.board dst ≡ some p
        → count (at pos.hands pos.side_to_move) p.kind < cap p.kind

  pub data Playable (pos : Position Info) (m : Move) : Type 0 where
    drop : (k : PieceKind) (dst : Square) → FitsDrop pos m k dst → Playable pos m
    board : (src dst : Square) (after : Piece) → FitsBoard pos m src dst after → Playable pos m

  -- Capturing the root keeps what a move needs.
  pub rooted-IsPosition : (pos : Position Info) → IsPosition pos → IsPosition (capture_root pos)
  rooted-IsPosition pos v =
      rw (capture_root_lem pos)
        (record { board = v.board; hands = v.hands; ply = v.ply; hand_key = v.hand_key })

  pub rooted-Playable :
      (pos : Position Info) (m : Move) → Playable pos m → Playable (capture_root pos) m
  rooted-Playable pos m p = rw (capture_root_lem pos) (moved (capture_root pos).root p)
    where
      moved : (r : Option StateInfo) → Playable pos m → Playable (record pos { root = r }) m
      moved r (drop k dst fits) = drop k dst (record {
        drop = fits.drop;
        target = fits.target;
        kind = fits.kind;
        square = fits.square;
        vacant = fits.vacant;
        held = fits.held;
      })
      moved r (board src dst after fits) = board src dst after (record {
        board_move = fits.board_move;
        origin = fits.origin;
        target = fits.target;
        piece = fits.piece;
        src_square = fits.src_square;
        dst_square = fits.dst_square;
        apart = fits.apart;
        mover = fits.mover;
        room = fits.room;
      })

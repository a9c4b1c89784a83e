-- ===== src/State/PackedSfen/Exact.antt =====
-- The packed bytes tell the position, crates/attic-state/src/packed_sfen.rs: two complete positions
-- that pack alike differ in their ply and history at most.
use attic_shogi.Prelude.{
  ℕ, suc, zero, ◌<◌, ◌≡◌, sym, ap, ◌∙◌, Bool, false, ◌++◌, none, get_or, get_or_ext, arith,
}
use attic_shogi.State.Piece.{
  Color, black, white, PieceKind, pawn, lance, knight, silver, gold, bishop, rook, at,
}
use attic_shogi.State.Square.{square_count}
use attic_shogi.State.Hand.{Hand, count}
use mathlib.Core.List.{append_assoc}
use attic_shogi.State.Board.{get}
use attic_shogi.State.Board.Unique.{eq_of_squares}
use attic_shogi.State.Hand.Laws.{IsHand}
use attic_shogi.State.Position.Valid.{IsPosition}
use attic_shogi.State.Sfen.BoardRoundTrip.{HasPieces}
use attic_shogi.State.Position.Types.{Position}
use attic_shogi.State.PackedSfen.{is_white, king_square, sfen_pack}
use attic_shogi.State.PackedSfen.Stream.{Bits, bits_from, board_bits, IsDroppable}
use attic_shogi.State.PackedSfen.Whole.{stream, left_in_box}
use attic_shogi.State.PackedSfen.Bytes.{bit_of, buffer_bit, sfen_pack-bits}
use attic_shogi.State.PackedSfen.Length.{IsComplete, stream-length}
use attic_shogi.State.PackedSfen.Codes.{tail_stream, tail-injective}
use attic_shogi.State.PackedSfen.Kings.{HasOneKing, king_square-le}
use attic_shogi.State.PackedSfen.Squares.{seven_bits, board-injective}
use attic_shogi.State.PackedSfen.Boards.{boards-Alike}

-- Hands of seven counters are told by their counts.
hand_ext :
    (h h' : Hand)
    → IsHand h
    → IsHand h'
    → ((k : PieceKind) → IsDroppable k → count h k ≡ count h' k)
    → h ≡ h'
unfolding count
hand_ext h h' v v' e = get_or_ext 0 h h' (v.slots ∙ sym v'.slots) (λ i p. at_slot i (omega arith))
  where
    at_slot : (i : ℕ) → i < 7 → get_or h i 0 ≡ get_or h' i 0
    at_slot zero p = e pawn tt
    at_slot (suc zero) p = e lance tt
    at_slot (suc (suc zero)) p = e knight tt
    at_slot (suc (suc (suc zero))) p = e silver tt
    at_slot (suc (suc (suc (suc zero)))) p = e gold tt
    at_slot (suc (suc (suc (suc (suc zero))))) p = e bishop tt
    at_slot (suc (suc (suc (suc (suc (suc zero)))))) p = e rook tt
    at_slot (suc (suc (suc (suc (suc (suc (suc i))))))) p = absurd (omega arith)

bit_of-injective : (a b : Bool) → bit_of a ≡ bit_of b → a ≡ b
bit_of-injective a b e = ground arith

is_white-injective : (c d : Color) → is_white c ≡ is_white d → c ≡ d
is_white-injective c d e = ground arith

module _ {Info : Type 0} where
  -- A position of the game: valid, with a complete set of pieces, of which only those that can
  -- promote are promoted, and at most one king of each colour.
  pub record IsPackable (pos : Position Info) : Type 0 where
    pub valid : IsPosition pos
    pub complete : IsComplete pos
    pub pieces : HasPieces pos.board
    pub one_king : (c : Color) → HasOneKing pos.board c

  -- What two positions that pack alike have in common.
  abbrev pub SameSetup : Position Info → Position Info → Type 0
  SameSetup pos pos' =
      (pos.board ≡ pos'.board) × (pos.hands ≡ pos'.hands) × (pos.side_to_move ≡ pos'.side_to_move)

  same_stream :
      (pos pos' : Position Info)
      → IsComplete pos
      → IsComplete pos'
      → sfen_pack pos ≡ sfen_pack pos'
      → stream pos ≡ stream pos'
  same_stream pos pos' v v' e =
      let (d, e1, l1, bits) = sfen_pack-bits pos in
      let (d', e2, l2, bits') = sfen_pack-bits pos' in
      let same : d ≡ d' = cc (sym e1 ∙ e ∙ e2) in
      get_or_ext false (stream pos) (stream pos')
        (stream-length pos v ∙ sym (stream-length pos' v'))
        λ i h. bit_of-injective _ _ (
          sym (bits i (omega (arith, stream-length pos v)))
          ∙ ap (λ x. buffer_bit x i) same
          ∙ bits' i (omega (arith, stream-length pos v)))

  abbrev king_bits : Position Info → Color → Bits
  king_bits pos c = bits_from 7 (king_square pos.board c) 0

  -- The stream after the head.
  abbrev placed : Position Info → Bits
  placed pos =
      board_bits square_count 0 pos.board
      ++ tail_stream (at pos.hands black) (at pos.hands white) (left_in_box pos)

  read_side :
      (pos pos' : Position Info)
      → stream pos ≡ stream pos'
      → (pos.side_to_move ≡ pos'.side_to_move)
        × (king_bits pos black ++ (king_bits pos white ++ placed pos)
            ≡ king_bits pos' black ++ (king_bits pos' white ++ placed pos'))
  unfolding stream
  read_side pos pos' e = (
    is_white-injective pos.side_to_move pos'.side_to_move (cc e),
    sym (append_assoc (king_bits pos black) (king_bits pos white) (placed pos))
        ∙ cc e
        ∙ append_assoc (king_bits pos' black) (king_bits pos' white) (placed pos'),
  )

  read_king :
      (pos pos' : Position Info) (c : Color) (r r' : Bits)
      → king_bits pos c ++ r ≡ king_bits pos' c ++ r'
      → (king_square pos.board c ≡ king_square pos'.board c) × (r ≡ r')
  read_king pos pos' c r r' =
      seven_bits (king_square pos.board c) (king_square pos'.board c) r r'
        (omega (arith, king_square-le pos.board c)) (omega (arith, king_square-le pos'.board c))

  equal_hands :
      (pos pos' : Position Info)
      → IsPosition pos
      → IsPosition pos'
      → ((k : PieceKind)
          → IsDroppable k
          → (count (at pos.hands black) k ≡ count (at pos'.hands black) k)
            × (count (at pos.hands white) k ≡ count (at pos'.hands white) k))
      → pos.hands ≡ pos'.hands
  equal_hands pos pos' v v' h = λ i. record {
    of_black =
        hand_ext (at pos.hands black) (at pos'.hands black) (v.hands black) (v'.hands black)
          (λ k d. (h k d).0) i;
    of_white =
        hand_ext (at pos.hands white) (at pos'.hands white) (v.hands white) (v'.hands white)
          (λ k d. (h k d).1) i;
  }

  -- Two valid positions with a complete set of pieces, of which only those that can promote are
  -- promoted, and at most one king of each colour, have the same board with its sets, the same
  -- hands and the same side to move if they pack to the same bytes.
  pub sfen_pack-injective :
      (pos pos' : Position Info)
      → IsPackable pos
      → IsPackable pos'
      → sfen_pack pos ≡ sfen_pack pos'
      → SameSetup pos pos'
  sfen_pack-injective pos pos' v v' e =
      let (side, heads) = read_side pos pos' (same_stream pos pos' v.complete v'.complete e) in
      let (black_king, after_black) = read_king pos pos' black _ _ heads in
      let (white_king, after_white) = read_king pos pos' white _ _ after_black in
      let (squares, hands) =
        board-injective square_count 0 pos.board pos'.board _ _
          (λ s h.
            boards-Alike pos.board pos'.board v.pieces v'.pieces v.one_king v'.one_king
              (both black_king white_king) s h)
          after_white in
      (
        eq_of_squares v.valid.board v'.valid.board (
            get_or_ext none pos.board.squares pos'.board.squares
              (v.valid.board.size ∙ sym v'.valid.board.size)
              (λ s h. unfold get in squares s (omega arith) (omega (arith, v.valid.board.size)))),
        equal_hands pos pos' v.valid v'.valid
            (tail-injective _ _ _ _ (left_in_box pos) (left_in_box pos') hands),
        side,
      )
    where
      both :
          king_square pos.board black ≡ king_square pos'.board black
          → king_square pos.board white ≡ king_square pos'.board white
          → (c : Color) → king_square pos.board c ≡ king_square pos'.board c
      both p q black = p
      both p q white = q

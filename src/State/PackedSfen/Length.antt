-- ===== src/State/PackedSfen/Length.antt =====
-- How long the stream of a packed position is, crates/attic-state/src/packed_sfen.rs.
use attic_shogi.Prelude.{[], ◌∷◌, some, ◌*◌, ◌+◌, ◌-◌, ◌≤◌, ◌≡◌, refl, get_or, length, arith}
use attic_shogi.State.Piece.{
  black, white, PieceKind, pawn, lance, knight, silver, gold, bishop, rook, king, kind_index, at,
}
use attic_shogi.State.Square.{square_count}
use attic_shogi.State.Hand.{count}
use attic_shogi.State.Position.Types.{Position}
use attic_shogi.State.PackedSfen.{
  hand_order, piece_box_start, BitWriter, packed_sfen_len, new, write_one_bit, pack_writer,
}
use attic_shogi.State.PackedSfen.Stream.{board_bits, IsDroppable, Bits, write_all}
use attic_shogi.State.PackedSfen.Whole.{
  hand_stream, box_stream, left_in_box, stream, pack_writer_lem,
}
use attic_shogi.State.PackedSfen.Cost.{
  tally, length-++, length-bits_from, board_cost, hand_cost, box_cost,
}
use attic_shogi.State.PackedSfen.Box.{board_taken-Takes, hand_taken-Takes}

cursor-write_all : (w : BitWriter) (bs : Bits) → (write_all w bs).cursor ≡ w.cursor + length bs
unfolding write_all write_one_bit
cursor-write_all w [] = omega arith
cursor-write_all w (b ∷ bs) = omega (arith, cursor-write_all (write_one_bit w b) bs)

module _ {Info : Type 0} where
  -- Two kings on the board, and of each other kind no more on the board and in the hands than a
  -- set of pieces has.
  pub record IsComplete (pos : Position Info) : Type 0 where
    pub kings : tally king square_count 0 pos.board ≡ 2
    pub within :
        (k : PieceKind)
        → IsDroppable k
        → tally k square_count 0 pos.board
            + count (at pos.hands black) k
            + count (at pos.hands white) k
          ≤ get_or piece_box_start (kind_index k) 0

  -- The box gets what the board and the hands leave.
  left_lem :
      (pos : Position Info) (k : PieceKind)
      → IsDroppable k
      → get_or (left_in_box pos) (kind_index k) 0
        ≡ get_or piece_box_start (kind_index k) 0
          - tally k square_count 0 pos.board
          - count (at pos.hands black) k
          - count (at pos.hands white) k
  left_lem pos k d =
      let box = board_taken-Takes square_count 0 pos.board piece_box_start refl in
      let first = hand_taken-Takes (at pos.hands black) _ box.whole in
      let second = hand_taken-Takes (at pos.hands white) _ first.whole in
      omega (arith, box.rest k d, first.rest k d, second.rest k d)

  -- What is left of a kind, and what the board and the hands have of it, is what a set has.
  whole_kind :
      (pos : Position Info) (k : PieceKind)
      → IsComplete pos
      → IsDroppable k
      → get_or (left_in_box pos) (kind_index k) 0
          + tally k square_count 0 pos.board
          + count (at pos.hands black) k
          + count (at pos.hands white) k
        ≡ get_or piece_box_start (kind_index k) 0
  whole_kind pos k v d = omega (arith, left_lem pos k d, v.within k d)

  -- The parts of the stream.
  stream_parts :
      (pos : Position Info)
      → length (stream pos)
        ≡ 15
          + length (board_bits square_count 0 pos.board)
          + length (hand_stream hand_order black (at pos.hands black))
          + length (hand_stream hand_order white (at pos.hands white))
          + length (box_stream hand_order (left_in_box pos))
  unfolding stream
  stream_parts pos = simp (length-++, length-bits_from) (omega arith)

  -- A complete set of pieces, two kings on the board among them, gives a stream of 256 bits.
  pub stream-length : (pos : Position Info) → IsComplete pos → length (stream pos) ≡ 256
  stream-length pos v = omega (
    arith,
    stream_parts pos,
    board_cost square_count 0 pos.board,
    hand_cost black (at pos.hands black),
    hand_cost white (at pos.hands white),
    box_cost (left_in_box pos),
    v.kings,
    whole_kind pos pawn v tt,
    whole_kind pos lance v tt,
    whole_kind pos knight v tt,
    whole_kind pos silver v tt,
    whole_kind pos gold v tt,
    whole_kind pos bishop v tt,
    whole_kind pos rook v tt,
  )

  -- The passes over a position with a complete set of pieces, two kings on the board among them, run
  -- without a panic and leave the cursor of the writer at the end of the 32 bytes: every bit of the
  -- buffer is written, and none past it.
  pub pack_writer-fills :
      (pos : Position Info)
      → IsComplete pos
      → (w : BitWriter) × (pack_writer pos ≡ some w) × (w.cursor ≡ packed_sfen_len * 8)
  pack_writer-fills pos v = (
    write_all new (stream pos),
    pack_writer_lem pos,
    omega (arith, cursor-write_all new (stream pos), stream-length pos v),
  )

-- ===== src/State/PackedSfen/Whole.antt =====
-- The whole stream of a packed position: `sfen_pack` of crates/attic-state/src/packed_sfen.rs writes
-- the head, the squares, the two hands and the piece box, and never meets a king to code.
use attic_shogi.Prelude.{ℕ, ◌≡◌, refl, ap, ◌∙◌, Bool, List, [], ◌∷◌, ◌++◌, some, get_or, arith}
use mathlib.Core.List.{append_assoc}
use attic_shogi.State.Piece.{Color, black, white, PieceKind, kind_index, at}
use attic_shogi.State.Square.{square_count}
use attic_shogi.State.Hand.{Hand, count}
use attic_shogi.State.Position.Types.{Position}
use attic_shogi.State.PackedSfen.{
  BitWriter, new, write_n_bit, write_one_bit, is_white, king_square, take_from, Pass, pack_hand,
  pack_box, pack_head, pack_writer, hand_order, piece_box_start,
}
use attic_shogi.State.PackedSfen.Stream.{
  Bits, write_all, write_all-++, bits_from, write_n_bit_lem, IsDroppable, hand_bits, box_bits,
  board_bits, board_taken, pack_board_lem, repeated, write_held_lem, write_boxed_lem,
}

abbrev pub Droppables : List PieceKind → Type 0
Droppables [] = Unit
Droppables (k ∷ ks) = IsDroppable k × Droppables ks

unfoldable pub hand_stream : List PieceKind → Color → Hand → Bits
unfolding count repeated
hand_stream [] c h = []
hand_stream (k ∷ ks) c h = repeated (count h k) (hand_bits k c) ++ hand_stream ks c h

unfoldable pub hand_taken : List PieceKind → Hand → List ℕ → List ℕ
unfolding take_from count
hand_taken [] h box_count = box_count
hand_taken (k ∷ ks) h box_count = hand_taken ks h (take_from box_count k (count h k))

unfoldable pub box_stream : List PieceKind → List ℕ → Bits
unfolding repeated
box_stream [] box_count = []
box_stream (k ∷ ks) box_count =
    repeated (get_or box_count (kind_index k) 0) (box_bits k) ++ box_stream ks box_count

pack_hand_lem :
    (ks : List PieceKind) (c : Color) (h : Hand) (s : Pass)
    → Droppables ks
    → pack_hand ks c h s
      ≡ some (record {
        w = write_all s.w (hand_stream ks c h);
        box_count = hand_taken ks h s.box_count;
      })
unfolding pack_hand hand_stream hand_taken write_all
pack_hand_lem [] c h s v = refl
pack_hand_lem (k ∷ ks) c h s v =
    rw (pack_hand, write_held_lem (count h k) k c s.w v.0)
      (pack_hand_lem ks c h _ v.1
        ∙ ap
            (λ w.
              some (record {
                w = w;
                box_count = hand_taken ks h (take_from s.box_count k (count h k));
              }))
            (write_all-++ s.w (repeated (count h k) (hand_bits k c)) (hand_stream ks c h)))

pack_box_lem :
    (ks : List PieceKind) (box_count : List ℕ) (w : BitWriter)
    → Droppables ks
    → pack_box ks box_count w ≡ some (write_all w (box_stream ks box_count))
unfolding pack_box box_stream write_all
pack_box_lem [] box_count w v = refl
pack_box_lem (k ∷ ks) box_count w v =
    rw (pack_box, write_boxed_lem (get_or box_count (kind_index k) 0) k w v.0)
      (pack_box_lem ks box_count _ v.1
        ∙ ap some (
            write_all-++ w (repeated (get_or box_count (kind_index k) 0) (box_bits k))
              (box_stream ks box_count)))

head_lem :
    (b : Bool) (x y : ℕ)
    → write_n_bit (write_n_bit (write_one_bit new b) x 7) y 7
      ≡ write_all new (b ∷ (bits_from 7 x 0 ++ bits_from 7 y 0))
unfolding write_all
head_lem b x y =
    write_n_bit_lem _ y 7
    ∙ ap (λ w. write_all w (bits_from 7 y 0)) (write_n_bit_lem (write_one_bit new b) x 7)
    ∙ write_all-++ (write_one_bit new b) (bits_from 7 x 0) (bits_from 7 y 0)

-- No king is among the kinds of the passes.
pub order_Droppables : Droppables hand_order
order_Droppables = omega arith

pack_order_lem :
    (c : Color) (h : Hand) (s : Pass)
    → pack_hand hand_order c h s
      ≡ some (record {
        w = write_all s.w (hand_stream hand_order c h);
        box_count = hand_taken hand_order h s.box_count;
      })
pack_order_lem c h s = pack_hand_lem hand_order c h s order_Droppables

pack_box_order_lem :
    (box_count : List ℕ) (w : BitWriter)
    → pack_box hand_order box_count w ≡ some (write_all w (box_stream hand_order box_count))
pack_box_order_lem box_count w = pack_box_lem hand_order box_count w order_Droppables

module _ {Info : Type 0} where
  abbrev pub head_bits : Position Info → Bits
  head_bits pos =
      is_white pos.side_to_move
      ∷ (bits_from 7 (king_square pos.board black) 0 ++ bits_from 7 (king_square pos.board white) 0)

  -- What is left in the box after the board and both hands.
  abbrev pub left_in_box : Position Info → List ℕ
  left_in_box pos = hand_taken hand_order (at pos.hands white) (
      hand_taken hand_order (at pos.hands black)
        (board_taken square_count 0 pos.board piece_box_start))

  unfoldable pub stream : Position Info → Bits
  stream pos =
      head_bits pos
      ++ (board_bits square_count 0 pos.board
          ++ (hand_stream hand_order black (at pos.hands black)
              ++ (hand_stream hand_order white (at pos.hands white)
                  ++ box_stream hand_order (left_in_box pos))))

  pack_head_lem : (pos : Position Info) → pack_head pos ≡ write_all new (head_bits pos)
  unfolding pack_head
  pack_head_lem pos =
      head_lem (is_white pos.side_to_move) (king_square pos.board black)
        (king_square pos.board white)

  -- The writer ends with the stream written into the empty buffer.
  pub pack_writer_lem : (pos : Position Info) → pack_writer pos ≡ some (write_all new (stream pos))
  unfolding pack_writer stream
  pack_writer_lem pos = simp (
    pack_head_lem, pack_board_lem, pack_order_lem, pack_box_order_lem, write_all-++, append_assoc,
  )

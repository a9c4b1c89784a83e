-- ===== src/State/PackedSfen.antt =====
-- The packed position of 256 bits, crates/attic-state/src/packed_sfen.rs. A code that is unreachable
-- in the source, that of a king, is `none`.
pub mod Stream
pub mod Whole
pub mod Bytes
pub mod Cost
pub mod Box
pub mod Length
pub mod Reading
pub mod Codes
pub mod Kings
pub mod Squares
pub mod Boards
pub mod Exact
mod Examples
use attic_shogi.Prelude.{
  ℕ, zero, suc, ◌+◌, ◌-◌, ◌/◌, ◌^◌, bit_and, bit_or, Bool, true, false, not, ◌&&◌, ◌==◌, ltb,
  if◌then◌else◌, List, [], ◌∷◌, Option, none, some, get_or, set, replicate,
}
use attic_shogi.State.Piece.{
  Color, black, white, PieceKind, pawn, lance, knight, silver, gold, bishop, rook, king, kind_index,
  Piece, PerColor, at, same_color,
}
use attic_shogi.State.Square.{Square, square_count}
use attic_shogi.State.Hand.{Hand, count}
use attic_shogi.State.Board.{Board, get}
use attic_shogi.State.Position.Types.{Position}

infixl 5 ◌>>=◌
abbrev pub ◌>>=◌ {ℓ κ} : {A : Type ℓ} {B : Type κ} → Option A → (A → Option B) → Option B
none >>= f = none
some a >>= f = f a

abbrev pub packed_sfen_len : ℕ
packed_sfen_len = 32

-- `[u8; PACKED_SFEN_LEN]`.
abbrev pub PackedSfen : Type 0
PackedSfen = List ℕ

abbrev pub hand_order : List PieceKind
hand_order = pawn ∷ lance ∷ knight ∷ silver ∷ gold ∷ bishop ∷ rook ∷ []

abbrev pub piece_box_start : List ℕ
piece_box_start = 18 ∷ 4 ∷ 4 ∷ 4 ∷ 4 ∷ 2 ∷ 2 ∷ []

pub record BitWriter : Type 0 where
  pub data_ : PackedSfen
  pub cursor : ℕ

-- `BitWriter::new`.
abbrev pub new : BitWriter
new = record { data_ = replicate packed_sfen_len 0; cursor = 0 }

unfoldable pub write_one_bit : BitWriter → Bool → BitWriter
write_one_bit w b =
    let byte = w.cursor / 8 in
    record {
      data_ =
          if b && ltb byte packed_sfen_len
          then set w.data_ byte (bit_or (get_or w.data_ byte 0) (2 ^ bit_and w.cursor 7))
          else w.data_;
      cursor = w.cursor + 1;
    }

-- The bits `i`, `i + 1`, ... of `d`, `left` of them.
unfoldable pub write_bits_from : (left d i : ℕ) → BitWriter → BitWriter
unfolding write_one_bit
write_bits_from zero d i w = w
write_bits_from (suc left) d i w =
    write_bits_from left d (suc i) (write_one_bit w (not (bit_and d (2 ^ i) == 0)))

unfoldable pub write_n_bit : BitWriter → (d n : ℕ) → BitWriter
unfolding write_bits_from
write_n_bit w d n = write_bits_from n d 0 w

abbrev pub huffman_board : PieceKind → Option (ℕ × ℕ)
huffman_board pawn = some (1, 2)
huffman_board lance = some (3, 4)
huffman_board knight = some (11, 4)
huffman_board silver = some (7, 4)
huffman_board gold = some (15, 5)
huffman_board bishop = some (31, 6)
huffman_board rook = some (63, 6)
huffman_board king = none

abbrev pub huffman_piece_box : PieceKind → Option (ℕ × ℕ)
huffman_piece_box pawn = some (2, 2)
huffman_piece_box lance = some (9, 4)
huffman_piece_box knight = some (13, 4)
huffman_piece_box silver = some (11, 4)
huffman_piece_box gold = some (27, 5)
huffman_piece_box bishop = some (47, 6)
huffman_piece_box rook = some (63, 6)
huffman_piece_box king = none

-- `kind != PieceKind::Gold`.
abbrev pub is_gold : PieceKind → Bool
is_gold gold = true
is_gold _ = false

abbrev pub is_white : Color → Bool
is_white black = false
is_white white = true

-- A bit that every kind but gold has.
abbrev pub unless_gold : PieceKind → BitWriter → Bool → BitWriter
unfolding write_one_bit
unless_gold k w b = if is_gold k then w else write_one_bit w b

unfoldable pub write_board_piece : BitWriter → Piece → Option BitWriter
unfolding write_n_bit write_one_bit
write_board_piece w p = elim (huffman_board p.kind) [
  | none ↦ none
  | some (code, bits) ↦
      some
        (write_one_bit (unless_gold p.kind (write_n_bit w code bits) p.promoted) (is_white p.color))
]

unfoldable pub write_hand_piece : BitWriter → PieceKind → Color → Option BitWriter
unfolding write_n_bit write_one_bit
write_hand_piece w k c = elim (huffman_board k) [
  | none ↦ none
  | some (code, bits) ↦
      some (write_one_bit (unless_gold k (write_n_bit w (code / 2) (bits - 1)) false) (is_white c))
]

unfoldable pub write_piece_box_piece : BitWriter → PieceKind → Option BitWriter
unfolding write_n_bit
write_piece_box_piece w k = elim (huffman_piece_box k) [
  | none ↦ none
  | some (code, bits) ↦ some (unless_gold k (write_n_bit w code bits) false)
]

-- `Some(p) if p.kind == King && p.color == color`.
abbrev pub is_king_of : Color → Option Piece → Bool
is_king_of c none = false
is_king_of c (some p) = elim p.kind [ king ↦ same_color p.color c | _ ↦ false ]

-- The scan of `left` squares from `sq` on.
unfoldable pub king_from : (left : ℕ) → Square → Board → Color → ℕ
unfolding get
king_from zero sq b c = square_count
king_from (suc left) sq b c =
    let rest = king_from left (suc sq) b c in if is_king_of c (get b sq) then sq else rest

unfoldable pub king_square : Board → Color → ℕ
unfolding king_from
king_square b c = king_from square_count 0 b c

-- `box_count[kind] -= n`. The only use of a count takes it with `max(0)`, so that it stops at 0.
unfoldable pub take_from : List ℕ → PieceKind → (n : ℕ) → List ℕ
take_from box_count k n = set box_count (kind_index k) (get_or box_count (kind_index k) 0 - n)

-- What a pass has written, and what is left in the piece box.
pub record Pass : Type 0 where
  pub w : BitWriter
  pub box_count : List ℕ

-- One square of the board pass.
unfoldable pub pack_square : Option Piece → Pass → Option Pass
unfolding write_one_bit write_board_piece take_from
pack_square none s = some (record s { w = write_one_bit s.w false })
pack_square (some p) s = elim p.kind [
  | king ↦ some s
  | _ ↦ elim (write_board_piece s.w p) [
    | none ↦ none
    | some w ↦ some (record { w = w; box_count = take_from s.box_count p.kind 1 })
  ]
]

-- The board pass on `left` squares from `sq` on.
unfoldable pub pack_board : (left : ℕ) → Square → Board → Pass → Option Pass
unfolding pack_square get
pack_board zero sq b s = some s
pack_board (suc left) sq b s = elim (pack_square (get b sq) s) [
  | none ↦ none
  | some t ↦ pack_board left (suc sq) b t
]

unfoldable pub write_held : (n : ℕ) → PieceKind → Color → BitWriter → Option BitWriter
unfolding write_hand_piece
write_held zero k c w = some w
write_held (suc n) k c w = elim (write_hand_piece w k c) [
  | none ↦ none
  | some w' ↦ write_held n k c w'
]

unfoldable pub pack_hand : List PieceKind → Color → Hand → Pass → Option Pass
unfolding write_held take_from count
pack_hand [] c h s = some s
pack_hand (k ∷ ks) c h s = elim (write_held (count h k) k c s.w) [
  | none ↦ none
  | some w ↦ pack_hand ks c h (record { w = w; box_count = take_from s.box_count k (count h k) })
]

unfoldable pub write_boxed : (n : ℕ) → PieceKind → BitWriter → Option BitWriter
unfolding write_piece_box_piece
write_boxed zero k w = some w
write_boxed (suc n) k w = elim (write_piece_box_piece w k) [
  | none ↦ none
  | some w' ↦ write_boxed n k w'
]

unfoldable pub pack_box : List PieceKind → (box_count : List ℕ) → BitWriter → Option BitWriter
unfolding write_boxed
pack_box [] box_count w = some w
pack_box (k ∷ ks) box_count w = elim (write_boxed (get_or box_count (kind_index k) 0) k w) [
  | none ↦ none
  | some w' ↦ pack_box ks box_count w'
]

module _ {Info : Type 0} where
  -- The side to move and the squares of the kings.
  unfoldable pub pack_head : Position Info → BitWriter
  pack_head pos =
      write_n_bit
        (write_n_bit (write_one_bit new (is_white pos.side_to_move)) (king_square pos.board black)
          7)
        (king_square pos.board white) 7

  -- The writer at the end of `sfen_pack`.
  unfoldable pub pack_writer : Position Info → Option BitWriter
  pack_writer pos = do
    s ←
        pack_board square_count 0 pos.board
          (record { w = pack_head pos; box_count = piece_box_start })
    t ← pack_hand hand_order black (at pos.hands black) s
    u ← pack_hand hand_order white (at pos.hands white) t
    pack_box hand_order u.box_count u.w

  unfoldable pub sfen_pack : Position Info → Option PackedSfen
  sfen_pack pos = elim (pack_writer pos) [ none ↦ none | some w ↦ some w.data_ ]

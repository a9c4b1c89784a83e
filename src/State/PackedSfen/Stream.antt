-- ===== src/State/PackedSfen/Stream.antt =====
-- The bits that each part of a packed position is, and that the writers of
-- crates/attic-state/src/packed_sfen.rs write them in order.
use attic_shogi.Prelude.{
  ℕ, zero, suc, ◌^◌, ◌≡◌, refl, ap, ◌∙◌, bit_and, Bool, true, false, not, ◌==◌, if◌then◌else◌, List,
  [], ◌∷◌, ◌++◌, Option, none, some,
}
use attic_shogi.State.Piece.{
  Color, PieceKind, pawn, lance, knight, silver, gold, bishop, rook, king, Piece,
}
use attic_shogi.State.Square.{Square}
use attic_shogi.State.Board.{Board, get}
use attic_shogi.State.PackedSfen.{
  BitWriter, write_one_bit, write_bits_from, write_n_bit, is_gold, is_white, write_board_piece,
  write_hand_piece, write_piece_box_piece, take_from, Pass, pack_square, pack_board, write_held,
  write_boxed,
}

abbrev pub Bits : Type 0
Bits = List Bool

unfoldable pub write_all : BitWriter → Bits → BitWriter
unfolding write_one_bit
write_all w [] = w
write_all w (b ∷ bs) = write_all (write_one_bit w b) bs

pub write_all-++ :
    (w : BitWriter) (xs ys : Bits) → write_all (write_all w xs) ys ≡ write_all w (xs ++ ys)
unfolding write_all
write_all-++ w [] ys = refl
write_all-++ w (x ∷ xs) ys = write_all-++ (write_one_bit w x) xs ys

-- The `n` bits of `d` from bit `i` on, the lowest first.
unfoldable pub bits_from : (n d i : ℕ) → Bits
bits_from zero d i = []
bits_from (suc n) d i = not (bit_and d (2 ^ i) == 0) ∷ bits_from n d (suc i)

pub write_n_bit_lem : (w : BitWriter) (d n : ℕ) → write_n_bit w d n ≡ write_all w (bits_from n d 0)
unfolding write_n_bit write_all bits_from
write_n_bit_lem w d n = go n d 0 w
  where
    go : (n d i : ℕ) (w : BitWriter) → write_bits_from n d i w ≡ write_all w (bits_from n d i)
    go zero d i w = refl
    go (suc n) d i w = go n d (suc i) (write_one_bit w (not (bit_and d (2 ^ i) == 0)))

-- The codes as the bits they are.
abbrev pub board_code : PieceKind → Bits
board_code pawn = true ∷ false ∷ []
board_code lance = true ∷ true ∷ false ∷ false ∷ []
board_code knight = true ∷ true ∷ false ∷ true ∷ []
board_code silver = true ∷ true ∷ true ∷ false ∷ []
board_code gold = true ∷ true ∷ true ∷ true ∷ false ∷ []
board_code bishop = true ∷ true ∷ true ∷ true ∷ true ∷ false ∷ []
board_code rook = true ∷ true ∷ true ∷ true ∷ true ∷ true ∷ []
board_code king = []

abbrev pub hand_code : PieceKind → Bits
hand_code pawn = false ∷ []
hand_code lance = true ∷ false ∷ false ∷ []
hand_code knight = true ∷ false ∷ true ∷ []
hand_code silver = true ∷ true ∷ false ∷ []
hand_code gold = true ∷ true ∷ true ∷ false ∷ []
hand_code bishop = true ∷ true ∷ true ∷ true ∷ false ∷ []
hand_code rook = true ∷ true ∷ true ∷ true ∷ true ∷ []
hand_code king = []

abbrev pub box_code : PieceKind → Bits
box_code pawn = false ∷ true ∷ []
box_code lance = true ∷ false ∷ false ∷ true ∷ []
box_code knight = true ∷ false ∷ true ∷ true ∷ []
box_code silver = true ∷ true ∷ false ∷ true ∷ []
box_code gold = true ∷ true ∷ false ∷ true ∷ true ∷ []
box_code bishop = true ∷ true ∷ true ∷ true ∷ false ∷ true ∷ []
box_code rook = true ∷ true ∷ true ∷ true ∷ true ∷ true ∷ []
box_code king = []

-- A kind that a hand can hold.
abbrev pub IsDroppable : PieceKind → Type 0
IsDroppable king = ⊥
IsDroppable _ = Unit

abbrev pub flag : PieceKind → Bool → Bits
flag k b = if is_gold k then [] else b ∷ []

-- What one square, one held piece and one boxed piece are.
abbrev pub square_bits : Option Piece → Bits
square_bits none = false ∷ []
square_bits (some p) = elim p.kind [
  | king ↦ []
  | _ ↦ board_code p.kind ++ (flag p.kind p.promoted ++ (is_white p.color ∷ []))
]

abbrev pub hand_bits : PieceKind → Color → Bits
hand_bits k c = hand_code k ++ (flag k false ++ (is_white c ∷ []))

abbrev pub box_bits : PieceKind → Bits
box_bits k = box_code k ++ flag k false

-- What a square takes from the box.
abbrev pub taken : Option Piece → List ℕ → List ℕ
taken none box_count = box_count
taken (some p) box_count = elim p.kind [ king ↦ box_count | _ ↦ take_from box_count p.kind 1 ]

-- One square, as the pass writes it and takes it from the box.
abbrev pub Packs : Option Piece → Pass → Type 0
Packs o s =
    pack_square o s
    ≡ some (record { w = write_all s.w (square_bits o); box_count = taken o s.box_count })

pack_piece_lem :
    (k : PieceKind) (c : Color) (b : Bool) (s : Pass)
    → Packs (some (record { kind = k; color = c; promoted = b })) s
unfolding pack_square write_board_piece write_n_bit write_all
pack_piece_lem pawn c b s = refl
pack_piece_lem lance c b s = refl
pack_piece_lem knight c b s = refl
pack_piece_lem silver c b s = refl
pack_piece_lem gold c b s = refl
pack_piece_lem bishop c b s = refl
pack_piece_lem rook c b s = refl
pack_piece_lem king c b s = refl

pack_square_lem : (o : Option Piece) (s : Pass) → Packs o s
unfolding pack_square write_all
pack_square_lem none s = refl
pack_square_lem (some p) s = pack_piece_lem p.kind p.color p.promoted s

-- The squares of the board pass.
unfoldable pub board_bits : (left : ℕ) → Square → Board → Bits
board_bits zero sq b = []
board_bits (suc left) sq b = square_bits (get b sq) ++ board_bits left (suc sq) b

unfoldable pub board_taken : (left : ℕ) → Square → Board → List ℕ → List ℕ
board_taken zero sq b box_count = box_count
board_taken (suc left) sq b box_count = board_taken left (suc sq) b (taken (get b sq) box_count)

pub pack_board_lem :
    (left : ℕ) (sq : Square) (b : Board) (s : Pass)
    → pack_board left sq b s
      ≡ some (record {
        w = write_all s.w (board_bits left sq b);
        box_count = board_taken left sq b s.box_count;
      })
unfolding pack_board board_bits board_taken write_all
pack_board_lem zero sq b s = refl
pack_board_lem (suc left) sq b s =
    rw (pack_board, pack_square_lem (get b sq) s)
      (pack_board_lem left (suc sq) b _
        ∙ ap
            (λ w. some (record {
              w = w;
              box_count = board_taken left (suc sq) b (taken (get b sq) s.box_count);
            }))
            (write_all-++ s.w (square_bits (get b sq)) (board_bits left (suc sq) b)))

-- `n` times the same bits.
unfoldable pub repeated : (n : ℕ) → Bits → Bits
repeated zero xs = []
repeated (suc n) xs = xs ++ repeated n xs

write_hand_piece_lem :
    (w : BitWriter) (k : PieceKind) (c : Color)
    → IsDroppable k
    → write_hand_piece w k c ≡ some (write_all w (hand_bits k c))
unfolding write_hand_piece write_n_bit write_all
write_hand_piece_lem w pawn c h = refl
write_hand_piece_lem w lance c h = refl
write_hand_piece_lem w knight c h = refl
write_hand_piece_lem w silver c h = refl
write_hand_piece_lem w gold c h = refl
write_hand_piece_lem w bishop c h = refl
write_hand_piece_lem w rook c h = refl
write_hand_piece_lem w king c h = absurd h

write_piece_box_piece_lem :
    (w : BitWriter) (k : PieceKind)
    → IsDroppable k
    → write_piece_box_piece w k ≡ some (write_all w (box_bits k))
unfolding write_piece_box_piece write_n_bit write_all
write_piece_box_piece_lem w pawn h = refl
write_piece_box_piece_lem w lance h = refl
write_piece_box_piece_lem w knight h = refl
write_piece_box_piece_lem w silver h = refl
write_piece_box_piece_lem w gold h = refl
write_piece_box_piece_lem w bishop h = refl
write_piece_box_piece_lem w rook h = refl
write_piece_box_piece_lem w king h = absurd h

pub write_held_lem :
    (n : ℕ) (k : PieceKind) (c : Color) (w : BitWriter)
    → IsDroppable k
    → write_held n k c w ≡ some (write_all w (repeated n (hand_bits k c)))
unfolding write_held repeated write_all
write_held_lem zero k c w h = refl
write_held_lem (suc n) k c w h =
    rw (write_held, write_hand_piece_lem w k c h)
      (write_held_lem n k c (write_all w (hand_bits k c)) h
        ∙ ap some (write_all-++ w (hand_bits k c) (repeated n (hand_bits k c))))

pub write_boxed_lem :
    (n : ℕ) (k : PieceKind) (w : BitWriter)
    → IsDroppable k
    → write_boxed n k w ≡ some (write_all w (repeated n (box_bits k)))
unfolding write_boxed repeated write_all
write_boxed_lem zero k w h = refl
write_boxed_lem (suc n) k w h =
    rw (write_boxed, write_piece_box_piece_lem w k h)
      (write_boxed_lem n k (write_all w (box_bits k)) h
        ∙ ap some (write_all-++ w (box_bits k) (repeated n (box_bits k))))

-- ===== src/State/PackedSfen/Cost.antt =====
-- What a piece costs in the stream of a packed position, crates/attic-state/src/packed_sfen.rs: the
-- same on the board, in a hand and in the piece box.
use attic_shogi.Prelude.{
  ℕ, suc, zero, ◌+◌, ◌*◌, ◌≡◌, refl, ap, ◌∙◌, Bool, false, ◌==◌, if◌then◌else◌, List, [], ◌∷◌, ◌++◌,
  Option, none, some, get_or, length, arith,
}
use attic_shogi.State.Piece.{
  Color, PieceKind, pawn, lance, knight, silver, gold, bishop, rook, king, kind_index, Piece,
}
use attic_shogi.State.Square.{Square}
use attic_shogi.State.Hand.{Hand, count}
use attic_shogi.State.Board.{Board, get}
use attic_shogi.State.PackedSfen.{hand_order}
use attic_shogi.State.PackedSfen.Stream.{Bits, bits_from, square_bits, board_bits, repeated}
use attic_shogi.State.PackedSfen.Whole.{hand_stream, box_stream}

pub length-++ : (xs ys : Bits) → length (xs ++ ys) ≡ length xs + length ys
length-++ [] ys = omega arith
length-++ (x ∷ xs) ys = omega (arith, length-++ xs ys)

length-repeated : (n : ℕ) (xs : Bits) → length (repeated n xs) ≡ n * length xs
unfolding repeated
length-repeated zero xs = omega arith
length-repeated (suc n) xs = length-++ xs (repeated n xs) ∙ rw (length-repeated n xs) (grind arith)

pub length-bits_from : (n d i : ℕ) → length (bits_from n d i) ≡ n
unfolding bits_from
length-bits_from zero d i = refl
length-bits_from (suc n) d i = ap suc (length-bits_from n d (suc i))

-- Whether a square holds a piece of a kind.
abbrev pub holds_kind : PieceKind → Option Piece → Bool
holds_kind k none = false
holds_kind k (some p) = kind_index p.kind == kind_index k

-- The pieces of a kind on `left` squares from `sq` on.
unfoldable pub tally : PieceKind → (left : ℕ) → Square → Board → ℕ
tally k zero sq b = 0
tally k (suc left) sq b = (if holds_kind k (get b sq) then 1 else 0) + tally k left (suc sq) b

-- What pieces cost, beyond the bit of an empty square, by their number of each kind.
abbrev pub cost : (PieceKind → ℕ) → ℕ
cost n =
    3 * n pawn + 5 * n lance + 5 * n knight + 5 * n silver + 5 * n gold + 7 * n bishop + 7 * n rook

abbrev pub ones : Option Piece → PieceKind → ℕ
ones o k = if holds_kind k o then 1 else 0

square_cost : (o : Option Piece) → length (square_bits o) + ones o king ≡ 1 + cost (ones o)
square_cost none = refl
square_cost (some p) = by_kind p.kind p.color p.promoted
  where
    by_kind :
        (k : PieceKind) (c : Color) (b : Bool)
        → length (square_bits (some (record { kind = k; color = c; promoted = b })))
            + ones (some (record { kind = k; color = c; promoted = b })) king
          ≡ 1 + cost (ones (some (record { kind = k; color = c; promoted = b })))
    by_kind pawn c b = refl
    by_kind lance c b = refl
    by_kind knight c b = refl
    by_kind silver c b = refl
    by_kind gold c b = refl
    by_kind bishop c b = refl
    by_kind rook c b = refl
    by_kind king c b = refl

pub board_cost :
    (left : ℕ) (sq : Square) (b : Board)
    → length (board_bits left sq b) + tally king left sq b ≡ left + cost (λ k. tally k left sq b)
unfolding board_bits tally
board_cost zero sq b = refl
board_cost (suc left) sq b = omega (
  arith,
  length-++ (square_bits (get b sq)) (board_bits left (suc sq) b),
  square_cost (get b sq),
  board_cost left (suc sq) b,
)

pub hand_cost : (c : Color) (h : Hand) → length (hand_stream hand_order c h) ≡ cost (count h)
unfolding hand_stream
hand_cost c h = simp (length-++, length-repeated) (omega arith)

pub box_cost :
    (box_count : List ℕ)
    → length (box_stream hand_order box_count) ≡ cost (λ k. get_or box_count (kind_index k) 0)
unfolding box_stream
box_cost box_count = simp (length-++, length-repeated) (omega arith)

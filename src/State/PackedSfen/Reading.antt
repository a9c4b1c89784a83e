-- ===== src/State/PackedSfen/Reading.antt =====
-- Reading the stream of a packed position back, crates/attic-state/src/packed_sfen.rs: the codes of
-- the squares, and those of the hands and the piece box together, are prefix codes.
use attic_shogi.Prelude.{◌≡◌, refl, Bool, true, false, ◌∷◌, ◌++◌, Option, none, some}
use attic_shogi.State.Piece.{
  Color, black, white, PieceKind, pawn, lance, knight, silver, gold, bishop, rook, king, Piece,
  can_promote,
}
use attic_shogi.State.PackedSfen.Stream.{Bits, square_bits, hand_bits, box_bits, IsDroppable}

abbrev pub color_of : Bool → Color
color_of false = black
color_of true = white

abbrev pub read_piece : PieceKind → Bits → Option (Option Piece × Bits)
read_piece gold (c ∷ r) =
    some (some (record { kind = gold; color = color_of c; promoted = false }), r)
read_piece k (b ∷ c ∷ r) = some (some (record { kind = k; color = color_of c; promoted = b }), r)
read_piece k _ = none

-- A square that holds no king, and what follows it.
abbrev pub read_square : Bits → Option (Option Piece × Bits)
read_square (false ∷ r) = some (none, r)
read_square (true ∷ false ∷ r) = read_piece pawn r
read_square (true ∷ true ∷ false ∷ false ∷ r) = read_piece lance r
read_square (true ∷ true ∷ false ∷ true ∷ r) = read_piece knight r
read_square (true ∷ true ∷ true ∷ false ∷ r) = read_piece silver r
read_square (true ∷ true ∷ true ∷ true ∷ false ∷ r) = read_piece gold r
read_square (true ∷ true ∷ true ∷ true ∷ true ∷ false ∷ r) = read_piece bishop r
read_square (true ∷ true ∷ true ∷ true ∷ true ∷ true ∷ r) = read_piece rook r
read_square _ = none

-- No king, and no gold that claims a promotion.
abbrev pub IsPlain : Option Piece → Type 0
IsPlain none = Unit
IsPlain (some p) = IsDroppable p.kind × (p.promoted ≡ true → can_promote p.kind ≡ true)

pub read_square-square_bits :
    (o : Option Piece) (r : Bits) → IsPlain o → read_square (square_bits o ++ r) ≡ some (o, r)
read_square-square_bits none r v = refl
read_square-square_bits (some p) r v = by_kind p.kind p.color p.promoted v.0 v.1
  where
    by_kind :
        (k : PieceKind) (c : Color) (b : Bool)
        → IsDroppable k
        → (b ≡ true → can_promote k ≡ true)
        → read_square (square_bits (some (record { kind = k; color = c; promoted = b })) ++ r)
          ≡ some (some (record { kind = k; color = c; promoted = b }), r)
    by_kind pawn black b d h = refl
    by_kind pawn white b d h = refl
    by_kind lance black b d h = refl
    by_kind lance white b d h = refl
    by_kind knight black b d h = refl
    by_kind knight white b d h = refl
    by_kind silver black b d h = refl
    by_kind silver white b d h = refl
    by_kind gold black false d h = refl
    by_kind gold white false d h = refl
    by_kind gold c true d h = unfold can_promote in cc (h refl)
    by_kind bishop black b d h = refl
    by_kind bishop white b d h = refl
    by_kind rook black b d h = refl
    by_kind rook white b d h = refl
    by_kind king c b d h = absurd d

-- What stands after the squares: pieces in hand and pieces in the box.
pub data Code : Type 0 where
  held : PieceKind → Color → Code
  boxed : PieceKind → Code

abbrev pub kind_of : Code → PieceKind
kind_of (held k c) = k
kind_of (boxed k) = k

abbrev pub code_bits : Code → Bits
code_bits (held k c) = hand_bits k c
code_bits (boxed k) = box_bits k

abbrev pub read_held : PieceKind → Bits → Option (Code × Bits)
read_held k (c ∷ r) = some (held k (color_of c), r)
read_held k _ = none

abbrev pub read_code : Bits → Option (Code × Bits)
read_code (false ∷ false ∷ r) = read_held pawn r
read_code (false ∷ true ∷ false ∷ r) = some (boxed pawn, r)
read_code (true ∷ false ∷ false ∷ false ∷ r) = read_held lance r
read_code (true ∷ false ∷ false ∷ true ∷ false ∷ r) = some (boxed lance, r)
read_code (true ∷ false ∷ true ∷ false ∷ r) = read_held knight r
read_code (true ∷ false ∷ true ∷ true ∷ false ∷ r) = some (boxed knight, r)
read_code (true ∷ true ∷ false ∷ false ∷ r) = read_held silver r
read_code (true ∷ true ∷ false ∷ true ∷ false ∷ r) = some (boxed silver, r)
read_code (true ∷ true ∷ false ∷ true ∷ true ∷ r) = some (boxed gold, r)
read_code (true ∷ true ∷ true ∷ false ∷ r) = read_held gold r
read_code (true ∷ true ∷ true ∷ true ∷ false ∷ false ∷ r) = read_held bishop r
read_code (true ∷ true ∷ true ∷ true ∷ false ∷ true ∷ false ∷ r) = some (boxed bishop, r)
read_code (true ∷ true ∷ true ∷ true ∷ true ∷ false ∷ r) = read_held rook r
read_code (true ∷ true ∷ true ∷ true ∷ true ∷ true ∷ false ∷ r) = some (boxed rook, r)
read_code _ = none

pub read_code-code_bits :
    (x : Code) (r : Bits) → IsDroppable (kind_of x) → read_code (code_bits x ++ r) ≡ some (x, r)
read_code-code_bits (held pawn black) r d = refl
read_code-code_bits (held pawn white) r d = refl
read_code-code_bits (held lance black) r d = refl
read_code-code_bits (held lance white) r d = refl
read_code-code_bits (held knight black) r d = refl
read_code-code_bits (held knight white) r d = refl
read_code-code_bits (held silver black) r d = refl
read_code-code_bits (held silver white) r d = refl
read_code-code_bits (held gold black) r d = refl
read_code-code_bits (held gold white) r d = refl
read_code-code_bits (held bishop black) r d = refl
read_code-code_bits (held bishop white) r d = refl
read_code-code_bits (held rook black) r d = refl
read_code-code_bits (held rook white) r d = refl
read_code-code_bits (held king c) r d = absurd d
read_code-code_bits (boxed pawn) r d = refl
read_code-code_bits (boxed lance) r d = refl
read_code-code_bits (boxed knight) r d = refl
read_code-code_bits (boxed silver) r d = refl
read_code-code_bits (boxed gold) r d = refl
read_code-code_bits (boxed bishop) r d = refl
read_code-code_bits (boxed rook) r d = refl
read_code-code_bits (boxed king) r d = absurd d

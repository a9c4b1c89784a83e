-- ===== src/State/Move/Decode.antt =====
-- Every constructed move decodes to what it was made of.
use attic_shogi.Prelude.{
  ℕ, ◌+◌, ◌*◌, ◌/◌, ◌%◌, ◌^◌, ◌<◌, ◌≤◌, bit_or, ◌≡◌, refl, ◌∙◌, Bool, true, false, none, some, ◌==◌,
  get_or, arith, ap, ◌≢◌,
}
use attic_shogi.Prelude.Bits.{bit_and_mask}
use attic_shogi.State.Piece.{Color, PieceKind, king, Piece, can_promote, new}
use attic_shogi.State.Square.{Square, IsSquare, from_index}
use attic_shogi.State.Move.{
  Move, piece_promote, color_bit, piece_to_ref_code, make, make_promote, make_drop, is_drop,
  is_promote, is_ok, dropped_piece_kind_checked, to_sq, from_sq, dropped_piece_kind, kind_of_entry,
  ref_to_piece_kind, piece_of_code, moved_piece_after,
}
use attic_shogi.State.Move.Fields.{
  ref_kind, ref_kind-lt, ref_code-lt, promoted_code-lt, make-eq_sum, make_promote-eq_sum,
  make_drop-eq_sum, is_drop_lem, is_promote_lem, to_sq_lem, from_sq_lem, moved_piece_after_lem,
  dropped_piece_kind_lem, is_ok_lem,
}

-- A piece that can stand on a board: only kinds that can promote are promoted.
abbrev pub IsPiece : Piece → Type 0
IsPiece p = p.promoted ≡ true → can_promote p.kind ≡ true

-- What every reader sees of a board move.
pub record Reads (m : Move) (src dst : Square) (after : Piece) (promotes : Bool) : Type 0 where
  pub ok : is_ok m ≡ true
  pub drop : is_drop m ≡ false
  pub promote : is_promote m ≡ promotes
  pub origin : from_sq m ≡ some src
  pub target : to_sq m ≡ some dst
  pub piece : moved_piece_after m ≡ some after

from_index-some : (s : Square) → IsSquare s → from_index s ≡ some s
unfolding from_index
from_index-some s h = ground arith

-- A code decodes to the piece that it encodes.
piece_of_ref_code : (p : Piece) → IsPiece p → piece_of_code (piece_to_ref_code p) ≡ some p
unfolding piece_of_code piece_to_ref_code can_promote
piece_of_ref_code p h = table p.kind p.color p.promoted h
  where
    table :
        (k : PieceKind) (c : Color) (b : Bool)
        → IsPiece (record { kind = k; color = c; promoted = b })
        → piece_of_code (piece_to_ref_code (record { kind = k; color = c; promoted = b }))
          ≡ some (record { kind = k; color = c; promoted = b })
    table king c b h = ground arith
    table k c b h = ground arith

piece_of_promoted_code :
    (k : PieceKind) (c : Color)
    → can_promote k ≡ true
    → piece_of_code (bit_or (piece_to_ref_code (new k c)) piece_promote)
      ≡ some (record { kind = k; color = c; promoted = true })
unfolding piece_of_code piece_to_ref_code can_promote
piece_of_promoted_code king c h = ground arith
piece_of_promoted_code k c h = ground arith

-- A word with these fields reads as a board move.
Reads-of_sum :
    (m src dst flag code : ℕ) {after : Piece}
    → m ≡ dst + src * 2 ^ 7 + flag * 2 ^ 15 + code * 2 ^ 16
    → IsSquare src
    → IsSquare dst
    → flag < 2
    → (1 ≤ code) × (code < 32)
    → piece_of_code code ≡ some after
    → Reads m src dst after (flag == 1)
Reads-of_sum m src dst flag code e hs hd hf hc decodes =
    let src' : m / 2 ^ 7 % 2 ^ 7 ≡ src = omega arith in
    let dst' : m % 2 ^ 7 ≡ dst = omega arith in
    let code' : m / 2 ^ 16 % 2 ^ 5 ≡ code = omega arith in
    record {
      ok = is_ok_lem m ∙ ground arith;
      drop = is_drop_lem m ∙ ground arith;
      promote = is_promote_lem m ∙ ground arith;
      origin = from_sq_lem m ∙ ap from_index src' ∙ from_index-some src hs;
      target = to_sq_lem m ∙ ap from_index dst' ∙ from_index-some dst hd;
      piece = moved_piece_after_lem m ∙ ap piece_of_code code' ∙ decodes;
    }

-- A plain move between squares of the board, of a piece that can stand there, reads back as its
-- squares and that piece, and is no drop, promotion or sentinel.
pub make-Reads :
    (src dst : Square) (p : Piece)
    → IsSquare src
    → IsSquare dst
    → IsPiece p
    → Reads (make src dst p) src dst p false
make-Reads src dst p hs hd hp =
    Reads-of_sum (make src dst p) src dst 0 (piece_to_ref_code p)
      (make-eq_sum src dst p hs hd ∙ omega arith) hs hd (omega arith) (ref_code-lt p)
      (piece_of_ref_code p hp)

-- A promoting move between squares of the board, of a piece of a kind that can promote, reads back
-- as its squares and the promoted piece, and is no drop or sentinel.
pub make_promote-Reads :
    (src dst : Square) (k : PieceKind) (c : Color)
    → IsSquare src
    → IsSquare dst
    → can_promote k ≡ true
    → Reads
        (make_promote src dst (new k c))
        src
        dst
        (record { kind = k; color = c; promoted = true })
        true
make_promote-Reads src dst k c hs hd hp =
    Reads-of_sum (make_promote src dst (new k c)) src dst 1 _
      (make_promote-eq_sum src dst (new k c) hs hd) hs hd (omega arith) (promoted_code-lt (new k c))
      (piece_of_promoted_code k c hp)

-- What every reader sees of a drop.
pub record ReadsDrop (m : Move) (k : PieceKind) (c : Color) (dst : Square) : Type 0 where
  pub ok : is_ok m ≡ true
  pub drop : is_drop m ≡ true
  pub promote : is_promote m ≡ false
  pub kind : dropped_piece_kind m ≡ some k
  pub checked : dropped_piece_kind_checked m ≡ some k
  pub target : to_sq m ≡ some dst
  pub piece : moved_piece_after m ≡ some (new k c)

drop_kind : (k : PieceKind) → kind_of_entry (get_or ref_to_piece_kind (ref_kind k) none) ≡ some k
drop_kind king = refl
drop_kind k = refl

drop_code :
    (k : PieceKind) (c : Color)
    → (1 ≤ bit_or (ref_kind k) (color_bit c)) × (bit_or (ref_kind k) (color_bit c) < 32)
drop_code king c = ground arith
drop_code k c = ground arith

piece_of_drop_code :
    (k : PieceKind) (c : Color) → piece_of_code (bit_or (ref_kind k) (color_bit c)) ≡ some (new k c)
unfolding piece_of_code
piece_of_drop_code king c = ground arith
piece_of_drop_code k c = ground arith

ref_kind-droppable : (k : PieceKind) → k ≢ king → ref_kind k ≤ 7
ref_kind-droppable king h = absurd (h refl)
ref_kind-droppable k h = omega arith

-- The drop on a square of the board of any kind but the king, the one kind that is never in hand,
-- reads back as that kind, its colour and its square, also through the reader that is total on
-- torn words.
pub make_drop-Reads :
    (k : PieceKind) (c : Color) (dst : Square)
    → k ≢ king
    → IsSquare dst
    → ReadsDrop (make_drop k c dst) k c dst
make_drop-Reads k c dst hk hd = record {
  ok = is_ok_lem m ∙ ground (arith, sum, code_bounds, bounds);
  drop = drops;
  promote = is_promote_lem m ∙ ground (arith, sum, code_bounds, bounds);
  kind =
      dropped_piece_kind_lem m
      ∙ ap (λ (x : ℕ). kind_of_entry (get_or ref_to_piece_kind x none)) field
      ∙ drop_kind k;
  checked = checked_lem;
  target = to_sq_lem m ∙ ap from_index dst' ∙ from_index-some dst hd;
  piece = moved_piece_after_lem m ∙ ap piece_of_code code' ∙ piece_of_drop_code k c;
}
  where
    m : ℕ
    m = make_drop k c dst

    sum : m ≡ dst + ref_kind k * 2 ^ 7 + 1 * 2 ^ 14 + bit_or (ref_kind k) (color_bit c) * 2 ^ 16
    sum = make_drop-eq_sum k c dst hd

    code_bounds : (1 ≤ bit_or (ref_kind k) (color_bit c)) × (bit_or (ref_kind k) (color_bit c) < 32)
    code_bounds = drop_code k c

    bounds : (1 ≤ ref_kind k) × (ref_kind k ≤ 7)
    bounds = ((ref_kind-lt k).0, ref_kind-droppable k hk)

    drops : is_drop m ≡ true
    drops = is_drop_lem m ∙ ground (arith, sum, code_bounds, bounds)

    field7 : m / 2 ^ 7 % 2 ^ 7 ≡ ref_kind k
    field7 = omega (arith, sum, code_bounds, bounds)

    field : m / 2 ^ 7 % 2 ^ 7 % 2 ^ 4 ≡ ref_kind k
    field = omega (arith, field7, bounds)

    dst' : m % 2 ^ 7 ≡ dst
    dst' = omega (arith, sum, bounds)

    code' : m / 2 ^ 16 % 2 ^ 5 ≡ bit_or (ref_kind k) (color_bit c)
    code' = omega (arith, sum, code_bounds, bounds)

    checked_lem : dropped_piece_kind_checked m ≡ some k
    checked_lem =
        unfold dropped_piece_kind_checked in
        ground (arith, drops, bounds, field7, bit_and_mask 7 (m / 2 ^ 7), drop_kind k)

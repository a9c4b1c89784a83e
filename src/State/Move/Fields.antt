-- ===== src/State/Move/Fields.antt =====
-- The constructors as sums of their fields, and the decoders as quotients and remainders.
use attic_shogi.Prelude.{
  ℕ, ◌+◌, ◌-◌, ◌*◌, ◌/◌, ◌%◌, ◌^◌, ◌<◌, ◌≤◌, bit_and, bit_or, ◌≡◌, refl, ◌∙◌, Bool, not, none, ◌==◌,
  get_or, arith, ap,
}
use attic_shogi.Prelude.Bits.{bit_or_fields, bit_and_mask, bit_and-two_pow, digit-eq_div_mod}
use attic_shogi.State.Piece.{Color, PieceKind, kind_index, king, Piece}
use attic_shogi.State.Square.{Square, IsSquare, from_index}
use attic_shogi.State.Move.{
  Move, piece_promote, piece_kind_to_ref, color_bit, piece_to_ref_code, make, make_promote,
  make_drop, is_drop, is_promote, is_ok, to_sq, from_sq, dropped_piece_kind, kind_of_entry,
  ref_to_piece_kind, piece_of_code, moved_piece_after,
}

abbrev pub ref_kind : PieceKind → ℕ
ref_kind k = get_or piece_kind_to_ref (kind_index k) 0

pub ref_kind-lt : (k : PieceKind) → (1 ≤ ref_kind k) × (ref_kind k ≤ 8)
ref_kind-lt king = (omega arith, omega arith)
ref_kind-lt k = (omega arith, omega arith)

pub ref_code-lt : (p : Piece) → (1 ≤ piece_to_ref_code p) × (piece_to_ref_code p < 32)
unfolding piece_to_ref_code
ref_code-lt p = table p.kind p.color p.promoted
  where
    table :
        (k : PieceKind) (c : Color) (b : Bool)
        → let code = piece_to_ref_code (record { kind = k; color = c; promoted = b }) in
          (1 ≤ code) × (code < 32)
    table king c b = ground arith
    table k c b = ground arith

pub make-eq_sum :
    (src dst : Square) (p : Piece)
    → IsSquare src
    → IsSquare dst
    → make src dst p ≡ dst + src * 2 ^ 7 + piece_to_ref_code p * 2 ^ 16
unfolding make
make-eq_sum src dst p hs hd =
    rw
      (
        bit_or_fields 7 dst src (omega arith),
        bit_or_fields 16 (dst + src * 2 ^ 7) (piece_to_ref_code p) (omega arith),
      )
      refl

-- The promoted form of a piece has the code with the promotion bit.
pub promoted_code-lt :
    (p : Piece) → let code = bit_or (piece_to_ref_code p) piece_promote in (1 ≤ code) × (code < 32)
unfolding piece_to_ref_code
promoted_code-lt p = table p.kind p.color p.promoted
  where
    table :
        (k : PieceKind) (c : Color) (b : Bool)
        → let code =
            bit_or
              (piece_to_ref_code (record { kind = k; color = c; promoted = b }))
              piece_promote in
          (1 ≤ code) × (code < 32)
    table king c b = ground arith
    table k c b = ground arith

pub make_promote-eq_sum :
    (src dst : Square) (p : Piece)
    → IsSquare src
    → IsSquare dst
    → make_promote src dst p
      ≡ dst + src * 2 ^ 7 + 1 * 2 ^ 15 + bit_or (piece_to_ref_code p) piece_promote * 2 ^ 16
unfolding make_promote
make_promote-eq_sum src dst p hs hd =
    rw
      (
        bit_or_fields 7 dst src (omega arith),
        bit_or_fields 15 (dst + src * 2 ^ 7) 1 (omega arith),
        bit_or_fields 16 (dst + src * 2 ^ 7 + 1 * 2 ^ 15)
            (bit_or (piece_to_ref_code p) piece_promote) (omega arith),
      )
      refl

pub make_drop-eq_sum :
    (k : PieceKind) (c : Color) (dst : Square)
    → IsSquare dst
    → make_drop k c dst
      ≡ dst + ref_kind k * 2 ^ 7 + 1 * 2 ^ 14 + bit_or (ref_kind k) (color_bit c) * 2 ^ 16
unfolding make_drop
make_drop-eq_sum k c dst hd =
    rw
      (
        bit_or_fields 7 dst (ref_kind k) (omega arith),
        bit_or_fields 14 (dst + ref_kind k * 2 ^ 7) 1 (omega (arith, ref_kind-lt k)),
        bit_or_fields 16 (dst + ref_kind k * 2 ^ 7 + 1 * 2 ^ 14) (bit_or (ref_kind k) (color_bit c))
            (omega (arith, ref_kind-lt k)),
      )
      refl

-- The decoders as arithmetic.
pub is_drop_lem : (m : Move) → is_drop m ≡ (m / 2 ^ 14 % 2 == 1)
unfolding is_drop
is_drop_lem m = ground (arith, bit_and-two_pow m 14, digit-eq_div_mod m 14)

pub is_promote_lem : (m : Move) → is_promote m ≡ (m / 2 ^ 15 % 2 == 1)
unfolding is_promote
is_promote_lem m = ground (arith, bit_and-two_pow m 15, digit-eq_div_mod m 15)

pub to_sq_lem : (m : Move) → to_sq m ≡ from_index (m % 2 ^ 7)
unfolding to_sq
to_sq_lem m = ap from_index (bit_and_mask 7 m)

pub from_sq_lem : (m : Move) → from_sq m ≡ from_index (m / 2 ^ 7 % 2 ^ 7)
unfolding from_sq
from_sq_lem m = ap from_index (bit_and_mask 7 (m / 2 ^ 7))

pub moved_piece_after_lem : (m : Move) → moved_piece_after m ≡ piece_of_code (m / 2 ^ 16 % 2 ^ 5)
unfolding moved_piece_after
moved_piece_after_lem m = ap piece_of_code (bit_and_mask 5 (m / 2 ^ 16))

pub dropped_piece_kind_lem :
    (m : Move)
    → dropped_piece_kind m
      ≡ kind_of_entry (get_or ref_to_piece_kind (m / 2 ^ 7 % 2 ^ 7 % 2 ^ 4) none)
unfolding dropped_piece_kind
dropped_piece_kind_lem m =
    ap (λ (x : ℕ). kind_of_entry (get_or ref_to_piece_kind x none))
      (bit_and_mask 4 (bit_and (m / 2 ^ 7) (2 ^ 7 - 1))
        ∙ ap (λ (x : ℕ). x % 2 ^ 4) (bit_and_mask 7 (m / 2 ^ 7)))

pub is_ok_lem : (m : Move) → is_ok m ≡ not (m / 2 ^ 7 == m % 2 ^ 7)
unfolding is_ok
is_ok_lem m = ap (λ (x : ℕ). not (m / 2 ^ 7 == x)) (bit_and_mask 7 m)

-- ===== src/State/Move.antt =====
-- The packed 32-bit move of crates/attic-state/src/move_.rs, bit for bit: `to` in bits 0 to 6,
-- `from` or the dropped piece in 7 to 13, the drop flag 14, the promote flag 15, and the piece
-- after the move in 16 to 20.
pub mod Fields
pub mod Decode
pub mod Flip
pub mod Path
use attic_shogi.Prelude.{
  ℕ, ◌+◌, ◌-◌, ◌*◌, ◌/◌, ◌%◌, ◌^◌, ◌<◌, bit_and, bit_or, Bool, true, false, not, ◌&&◌, List, [],
  ◌∷◌, Option, none, some, ltb, leb, ◌==◌, if◌then◌else◌, get_or,
}
use attic_shogi.State.Piece.{
  Color, black, white, PieceKind, kind_index, pawn, lance, knight, silver, gold, bishop, rook, king,
  Piece,
}
use attic_shogi.State.Square.{Square, from_index}

-- `Move(u32)`.
abbrev pub Move : Type 0
Move = ℕ

abbrev pub flag_drop : ℕ
flag_drop = 2 ^ 14

abbrev pub flag_promote : ℕ
flag_promote = 2 ^ 15

abbrev pub piece_promote : ℕ
piece_promote = 8

abbrev pub piece_white : ℕ
piece_white = 16

abbrev pub piece_kind_to_ref : List ℕ
piece_kind_to_ref = 1 ∷ 2 ∷ 3 ∷ 4 ∷ 7 ∷ 5 ∷ 6 ∷ 8 ∷ []

abbrev pub ref_to_piece_kind : List (Option (PieceKind × Bool))
ref_to_piece_kind =
    none
    ∷ some (pawn, false)
    ∷ some (lance, false)
    ∷ some (knight, false)
    ∷ some (silver, false)
    ∷ some (bishop, false)
    ∷ some (rook, false)
    ∷ some (gold, false)
    ∷ some (king, false)
    ∷ some (pawn, true)
    ∷ some (lance, true)
    ∷ some (knight, true)
    ∷ some (silver, true)
    ∷ some (bishop, true)
    ∷ some (rook, true)
    ∷ none
    ∷ []

abbrev pub color_bit : Color → ℕ
color_bit black = 0
color_bit white = piece_white

unfoldable pub piece_to_ref_code : Piece → ℕ
piece_to_ref_code p =
    let pt = get_or piece_kind_to_ref (kind_index p.kind) 0 in
    let promote_bit = if p.promoted then piece_promote else 0 in
    bit_or (bit_or pt promote_bit) (color_bit p.color)

-- The sentinels `MOVE_NONE`, `MOVE_NULL`, `MOVE_RESIGN` and `MOVE_WIN`.
abbrev pub move_none : Move
move_none = 0

abbrev pub move_null : Move
move_null = 1 * 2 ^ 7 + 1

abbrev pub move_resign : Move
move_resign = 2 * 2 ^ 7 + 2

abbrev pub move_win : Move
move_win = 3 * 2 ^ 7 + 3

unfoldable pub make : Square → Square → Piece → Move
make src dst p = bit_or (bit_or dst (src * 2 ^ 7)) (piece_to_ref_code p * 2 ^ 16)

unfoldable pub make_promote : Square → Square → Piece → Move
make_promote src dst p =
    let promoted_code = bit_or (piece_to_ref_code p) piece_promote in
    bit_or (bit_or (bit_or dst (src * 2 ^ 7)) flag_promote) (promoted_code * 2 ^ 16)

unfoldable pub make_drop : PieceKind → Color → Square → Move
make_drop k c dst =
    let pt = get_or piece_kind_to_ref (kind_index k) 0 in
    bit_or (bit_or (bit_or dst (pt * 2 ^ 7)) flag_drop) (bit_or pt (color_bit c) * 2 ^ 16)

unfoldable pub move16 : Move → ℕ
move16 m = bit_and m (2 ^ 16 - 1)

unfoldable pub is_drop : Move → Bool
is_drop m = not (bit_and m flag_drop == 0)

unfoldable pub is_promote : Move → Bool
is_promote m = not (bit_and m flag_promote == 0)

unfoldable pub is_ok : Move → Bool
is_ok m = not (m / 2 ^ 7 == bit_and m (2 ^ 7 - 1))

-- The decoders; `none` is the panic of `expect`.
unfoldable pub to_sq : Move → Option Square
to_sq m = from_index (bit_and m (2 ^ 7 - 1))

unfoldable pub from_sq : Move → Option Square
from_sq m = from_index (bit_and (m / 2 ^ 7) (2 ^ 7 - 1))

abbrev pub kind_of_entry : Option (PieceKind × Bool) → Option PieceKind
kind_of_entry none = none
kind_of_entry (some (k, promoted)) = some k

unfoldable pub dropped_piece_kind_checked : Move → Option PieceKind
unfolding is_drop
dropped_piece_kind_checked m =
    if is_drop m
    then (let field = bit_and (m / 2 ^ 7) (2 ^ 7 - 1) in
        if leb 1 field && leb field 7
        then kind_of_entry (get_or ref_to_piece_kind field none)
        else none)
    else none

unfoldable pub dropped_piece_kind : Move → Option PieceKind
dropped_piece_kind m =
    let code = bit_and (m / 2 ^ 7) (2 ^ 7 - 1) in
    kind_of_entry (get_or ref_to_piece_kind (bit_and code (2 ^ 4 - 1)) none)

-- The piece of a 5-bit code.
unfoldable pub piece_of_code : ℕ → Option Piece
piece_of_code code =
    let color = if not (bit_and code (2 ^ 4) == 0) then white else black in
    elim (get_or ref_to_piece_kind (bit_and code (2 ^ 4 - 1)) none) [
      | none ↦ none
      | some (k, promoted) ↦ some (record { kind = k; color = color; promoted = promoted })
    ]

unfoldable pub moved_piece_after : Move → Option Piece
unfolding piece_of_code
moved_piece_after m = piece_of_code (bit_and (m / 2 ^ 16) (2 ^ 5 - 1))

-- `80u16.wrapping_sub(x) & 0x7f`.
unfoldable pub flip_field : ℕ → ℕ
flip_field x = bit_and ((80 + 2 ^ 16 - x) % 2 ^ 16) (2 ^ 7 - 1)

unfoldable pub flip_move16 : ℕ → ℕ
unfolding flip_field
flip_move16 m =
    let to_mask = 2 ^ 7 - 1 in
    let flip_to = flip_field (bit_and m to_mask) in
    if not (bit_and m flag_drop == 0)
    then (let pt = bit_and (m / 2 ^ 7) to_mask in bit_or (bit_or flip_to (pt * 2 ^ 7)) flag_drop)
    else (let flip_from = flip_field (bit_and (m / 2 ^ 7) to_mask) in
        bit_or (bit_or flip_to (flip_from * 2 ^ 7)) (bit_and m flag_promote))

-- ===== src/State/Key/Slots.antt =====
-- The slots of the Zobrist table and the piece codes of a packed move agree.
use attic_shogi.Prelude.{◌≡◌, Bool, some, arith, ◌<◌}
use attic_shogi.State.Piece.{Color, PieceKind, king, Piece, can_promote}
use attic_shogi.State.Move.{piece_to_ref_code}
use attic_shogi.State.Move.Decode.{IsPiece}
use attic_shogi.State.Key.{ref_code_to_slot, piece_code, piece_codes}

-- The slot for the code of a piece that can stand on a board is that of the piece.
pub ref_code_to_slot-piece_to_ref_code :
    (p : Piece) → IsPiece p → ref_code_to_slot (piece_to_ref_code p) ≡ some (piece_code p)
unfolding ref_code_to_slot piece_to_ref_code piece_code can_promote
ref_code_to_slot-piece_to_ref_code p h = table p.kind p.color p.promoted h
  where
    table :
        (k : PieceKind) (c : Color) (b : Bool)
        → IsPiece (record { kind = k; color = c; promoted = b })
        → ref_code_to_slot (piece_to_ref_code (record { kind = k; color = c; promoted = b }))
          ≡ some (piece_code (record { kind = k; color = c; promoted = b }))
    table king c b h = ground arith
    table k c b h = ground arith

pub piece_code-lt : (p : Piece) → piece_code p < piece_codes
unfolding piece_code
piece_code-lt p = ground arith

-- Two pieces with the same slot of the table are the same piece.
pub piece_code-injective : (p q : Piece) → piece_code p ≡ piece_code q → p ≡ q
unfolding piece_code
piece_code-injective p q e = ground arith

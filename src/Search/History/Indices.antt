-- ===== src/Search/History/Indices.antt =====
-- The flat indices of the history tables: in bounds, and apart for apart cells.
use attic_shogi.Prelude.{◌*◌, ◌<◌, ◌≡◌, ◌≢◌, ◌⊎◌, inl, inr, ℕ_discrete, true, arith}
use attic_shogi.State.Piece.{
  Color, black, color_index, PieceKind, kind_index, pawn, Piece, new, can_promote,
}
use attic_shogi.State.Square.{Square, IsSquare}
use attic_shogi.Search.History.{
  piece_code, captured_code, capture_index, empty_index, piece_to_index,
  continuation_correction_plane, CorrChannel, channel_index, sentinel_plane,
}

pub piece_code-lt : (p : Piece) → piece_code p < 32
unfolding piece_code
piece_code-lt p = ground arith

captured_code-bounds :
    (p : Piece)
    → (p.promoted ≡ true → can_promote p.kind ≡ true)
    → (0 < captured_code p) × (captured_code p < 16)
unfolding captured_code can_promote
captured_code-bounds p h = ground arith

kind_index-injective : (k l : PieceKind) → kind_index k ≡ kind_index l → k ≡ l
kind_index-injective k l e = ground arith

pub piece_code-injective : (p q : Piece) → piece_code p ≡ piece_code q → p ≡ q
unfolding piece_code
piece_code-injective p q e = ground arith

pub CorrChannel-injective : (c d : CorrChannel) → channel_index c ≡ channel_index d → c ≡ d
CorrChannel-injective c d e = ground arith

pub Color-injective : (c d : Color) → color_index c ≡ color_index d → c ≡ d
Color-injective c d e = ground arith

pub channel_index-lt : (c : CorrChannel) → channel_index c < 4
channel_index-lt c = ground arith

pub color_index-lt : (c : Color) → color_index c < 2
color_index-lt c = ground arith

-- The index of a capture is in bounds and is never that of an empty target; two captures with the same index are the same moved
-- piece, square and kind of captured piece. Where a square is on the board and only a piece that
-- can promote is promoted.
pub capture_index-bounds :
    (p q : Piece) (s t : Square)
    → IsSquare s
    → IsSquare t
    → (x y : Piece) → (x.promoted ≡ true → can_promote x.kind ≡ true)
    → (y.promoted ≡ true → can_promote y.kind ≡ true)
    → (capture_index p s x < 32 * 81 * 16)
      × (empty_index q t ≢ capture_index p s x)
      × (capture_index p s x ≡ capture_index q t y
          → (p ≡ q) × (s ≡ t) × (captured_code x ≡ captured_code y))
unfolding capture_index empty_index
capture_index-bounds p q s t hs ht x y hx hy =
    let bound_p = piece_code-lt p in
    let bound_q = piece_code-lt q in
    let bound_x = captured_code-bounds x hx in
    let bound_y = captured_code-bounds y hy in
    (
      omega arith,
      omega arith,
      λ e. (piece_code-injective p q (omega arith), omega arith, omega arith),
    )

-- Two cells of a continuation table have the same index only when they are the same.
pub piece_to_index-injective :
    (p q : Piece) (s t : Square)
    → IsSquare s
    → IsSquare t
    → piece_to_index p s ≡ piece_to_index q t
    → (p ≡ q) × (s ≡ t)
unfolding piece_to_index
piece_to_index-injective p q s t hs ht e = (piece_code-injective p q (omega arith), omega arith)

sentinel_pair : (p : Piece) (s : Square) → piece_to_index p s ≡ 0 → (p ≡ new pawn black) × (s ≡ 0)
unfolding piece_to_index piece_code
sentinel_pair p s e = ground arith

-- The plane of the continuation correction table that stands for the stack cells before the root
-- is selected by one pair only, an unpromoted black pawn on the square 0, which is on its last
-- rank; and two pairs on the board never select one plane.
pub plane-sentinel :
    (p q : Piece) (s t : Square)
    → IsSquare s
    → IsSquare t
    → (continuation_correction_plane p s < 32 * 81)
      × ((continuation_correction_plane p s ≢ sentinel_plane) ⊎ (p ≡ new pawn black) × (s ≡ 0))
      × ((continuation_correction_plane p s ≢ continuation_correction_plane q t)
          ⊎ (p ≡ q) × (s ≡ t))
unfolding continuation_correction_plane piece_to_index
plane-sentinel p q s t hs ht = (
  omega (arith, piece_code-lt p),
  elim (ℕ_discrete (continuation_correction_plane p s) sentinel_plane) [
    | yes e ↦ inr (sentinel_pair p s e)
    | no h ↦ inl h
  ],
  elim (ℕ_discrete (continuation_correction_plane p s) (continuation_correction_plane q t)) [
    | yes e ↦ inr (piece_to_index-injective p q s t hs ht e)
    | no h ↦ inl h
  ],
)

-- ===== src/Search/History.antt =====
-- The history tables of crates/attic-search/src/history.rs. An `i16` or `i32` is an integer; no `i32`
-- here overflows, the products staying below 2 ^ 30. A table is the list of its entries.
pub mod Gravity
pub mod Indices
pub mod Shared
pub mod Tables
pub mod ReadBack
pub mod Update
pub mod Races
use attic_shogi.Prelude.{
  ℕ, zero, suc, ◌+◌, ◌-◌, ◌*◌, ◌/◌, ◌%◌, ◌^◌, min, bit_and, Bool, true, false, not, ◌&&◌, ◌==◌,
  if◌then◌else◌, Option, none, some, List, map, get_or, set, replicate,
}
use attic_shogi.Prelude.Int.{ℤ, pos, negsuc, pos_part, neg_part, ◌+ℤ◌, ◌-ℤ◌}
use attic_shogi.State.Piece.{Color, black, white, color_index, PieceKind, kind_index, Piece}
use attic_shogi.State.Square.{Square, square_count}
use attic_shogi.State.Move.{Move, move16}
use attic_shogi.Storage.Entry.{to_i16, of_i16}

abbrev pub low_ply_history_size : ℕ
low_ply_history_size = 5

abbrev pub main_history_d : ℕ
main_history_d = 7183

abbrev pub low_ply_history_d : ℕ
low_ply_history_d = 7183

abbrev pub capture_history_d : ℕ
capture_history_d = 10692

abbrev pub continuation_history_d : ℕ
continuation_history_d = 30000

abbrev pub pawn_history_d : ℕ
pawn_history_d = 8192

abbrev pub correction_history_d : ℕ
correction_history_d = 1024

abbrev pub tt_move_history_d : ℕ
tt_move_history_d = 8192

abbrev pub pawn_history_base_size : ℕ
pawn_history_base_size = 8192

abbrev pub corrhist_base_size : ℕ
corrhist_base_size = 65536

-- -n.
abbrev pub neg : ℕ → ℤ
neg zero = pos 0
neg (suc n) = negsuc n

-- `abs`.
abbrev pub magnitude : ℤ → ℕ
magnitude z = pos_part z + neg_part z

-- `bonus.clamp(-d, d)`.
unfoldable pub clamp : ℤ → (d : ℕ) → ℤ
clamp (pos n) d = pos (min n d)
clamp (negsuc n) d = neg (min (suc n) d)

-- A product with a number, and a quotient that truncates toward zero.
unfoldable pub times : ℤ → ℕ → ℤ
times (pos n) m = pos (n * m)
times (negsuc n) m = neg (suc n * m)

unfoldable pub quotient : ℤ → (d : ℕ) → ℤ
quotient (pos n) d = pos (n / d)
quotient (negsuc n) d = neg (suc n / d)

-- `as i16`.
abbrev pub as_i16 : ℤ → ℤ
as_i16 v = of_i16 (to_i16 v)

unfoldable pub apply_gravity : (entry bonus : ℤ) → (d : ℕ) → ℤ
unfolding clamp times quotient of_i16
apply_gravity entry bonus d =
    let clamped = clamp bonus d in
    as_i16 (entry +ℤ clamped -ℤ quotient (times entry (magnitude clamped)) d)

abbrev pub piece_nb : ℕ
piece_nb = 32

abbrev pub captured_nb : ℕ
captured_nb = 16

unfoldable pub piece_code : Piece → ℕ
piece_code p =
    kind_index p.kind + (if p.promoted then 8 else 0) + (elim p.color [ white ↦ 16 | black ↦ 0 ])

unfoldable pub captured_code : Piece → ℕ
captured_code p = 1 + kind_index p.kind + (if p.promoted then 8 else 0)

-- `LargePageArray<i16>`.
abbrev pub Table : Type 0
Table = List ℤ

unfoldable pub get : Table → (index : ℕ) → ℤ
get t i = get_or t i (pos 0)

-- The body that the `update` methods share, at their index and limit.
unfoldable pub update : Table → (index d : ℕ) → (bonus : ℤ) → Table
unfolding get apply_gravity
update t i d bonus = set t i (apply_gravity (get t i) bonus d)

-- `fill`.
unfoldable pub fill : Table → ℤ → Table
fill t v = map (λ e. v) t

-- `CapturePieceToHistory::index`, and that of `get_empty`.
unfoldable pub capture_index : Piece → Square → Piece → ℕ
unfolding piece_code captured_code
capture_index moved s captured =
    (piece_code moved * square_count + s) * captured_nb + captured_code captured

unfoldable pub empty_index : Piece → Square → ℕ
unfolding piece_code
empty_index moved s = (piece_code moved * square_count + s) * captured_nb

-- `ButterflyHistory::index` and `LowPlyHistory::index`.
unfoldable pub butterfly_index : Color → Move → ℕ
butterfly_index us m = color_index us * 2 ^ 16 + bit_and m (2 ^ 16 - 1)

unfoldable pub low_ply_index : ℕ → Move → ℕ
low_ply_index ply m = ply * 2 ^ 16 + bit_and m (2 ^ 16 - 1)

-- `PieceToHistory::index`.
unfoldable pub piece_to_index : Piece → Square → ℕ
unfolding piece_code
piece_to_index p s = piece_code p * square_count + s

pub data CorrChannel : Type 0 where
  pawn minor non_pawn_white non_pawn_black : CorrChannel

abbrev pub channel_index : CorrChannel → ℕ
channel_index pawn = 0
channel_index minor = 1
channel_index non_pawn_white = 2
channel_index non_pawn_black = 3

abbrev pub corr_slot_len : ℕ
corr_slot_len = 2 * 4

abbrev pub pawn_slot_len : ℕ
pawn_slot_len = piece_nb * square_count

-- `SharedHistories`; each mask is the number of slots less one.
pub record SharedHistories : Type 0 where
  pub thread_count : ℕ
  pub correction : Table
  pub corr_mask : ℕ
  pub pawn : Table
  pub pawn_mask : ℕ

abbrev pub is_power_of_two : ℕ → Bool
is_power_of_two n = not (n == 0) && (bit_and n (n - 1) == 0)

-- `CORRECTION_INIT` and `PAWN_INIT`.
abbrev pub correction_init : ℤ
correction_init = pos 0

abbrev pub pawn_init : ℤ
pawn_init = negsuc 1237

-- `SharedHistories::new`; `none` is the panic of its assertion.
unfoldable pub new_shared : (thread_count : ℕ) → Option SharedHistories
unfolding fill
new_shared thread_count =
    let corr_slots = thread_count * corrhist_base_size in
    let pawn_slots = thread_count * pawn_history_base_size in
    if is_power_of_two thread_count && not (thread_count == 0)
    then some (record {
      thread_count = thread_count;
      correction = fill (replicate (corr_slots * corr_slot_len) (pos 0)) correction_init;
      corr_mask = corr_slots - 1;
      pawn = fill (replicate (pawn_slots * pawn_slot_len) (pos 0)) pawn_init;
      pawn_mask = pawn_slots - 1;
    })
    else none

unfoldable pub corr_index : SharedHistories → (key : ℕ) → Color → CorrChannel → ℕ
corr_index h key c channel =
    (bit_and key h.corr_mask * 2 + color_index c) * 4 + channel_index channel

unfoldable pub pawn_index : SharedHistories → (pawn_key : ℕ) → Piece → Square → ℕ
unfolding piece_code
pawn_index h pawn_key p s =
    (bit_and pawn_key h.pawn_mask * piece_nb + piece_code p) * square_count + s

-- `correction_update` and `pawn_update`, of one thread alone.
unfoldable pub correction_update : SharedHistories → ℕ → Color → CorrChannel → ℤ → SharedHistories
unfolding update corr_index
correction_update h key c channel bonus = record h {
  correction = update h.correction (corr_index h key c channel) correction_history_d bonus;
}

unfoldable pub pawn_update : SharedHistories → ℕ → Piece → Square → ℤ → SharedHistories
unfolding update pawn_index
pawn_update h pawn_key p s bonus = record h {
  pawn = update h.pawn (pawn_index h pawn_key p s) pawn_history_d bonus;
}

-- `ContinuationHistory::plane_index` and `ContinuationHistory::cell`.
unfoldable pub plane_index : (in_check capture : Bool) → Piece → Square → ℕ
unfolding piece_code
plane_index in_check capture p s =
    let ic = if in_check then 1 else 0 in
    let cap = if capture then 1 else 0 in
    ((ic * 2 + cap) * piece_nb + piece_code p) * square_count + s

unfoldable pub cell_index : (plane : ℕ) → Piece → Square → ℕ
unfolding piece_code
cell_index plane p s = plane * (piece_nb * square_count) + piece_code p * square_count + s

-- `ContinuationCorrectionHistory::plane_index`.
unfoldable pub continuation_correction_plane : Piece → Square → ℕ
unfolding piece_to_index
continuation_correction_plane p s = piece_to_index p s

-- `ContinuationCorrectionHistory::SENTINEL_PLANE`.
abbrev pub sentinel_plane : ℕ
sentinel_plane = 0

-- ===== src/State/Bitboard/Geometry.antt =====
-- The lines, masks and zones of crates/attic-state/src/bitboard.rs that the generators read.
use attic_shogi.Prelude.{
  ℕ, zero, suc, ◌+◌, ◌*◌, ◌^◌, bit_or, ◌&&◌, not, ◌==◌, ltb, if◌then◌else◌, List, [], ◌∷◌, Option,
  none, some,
}
use attic_shogi.Prelude.Int.{ℤ, pos, negsuc, ◌+ℤ◌, ◌-ℤ◌}
use attic_shogi.State.Piece.{Color, black, white}
use attic_shogi.State.Square.{Square, ranks, files}
use attic_shogi.State.Bitboard
use attic_shogi.State.Bitboard.{Bitboard, from_raw, union, test}
use attic_shogi.State.Bitboard.Rays.{
  file_of, rank_of, on_board, to_index, Delta, by, up, down, step_table, directions, direction,
  ray_fuel, ray_bits, ray,
}
use attic_shogi.State.Bitboard.Steps.{same_ℤ}

unfoldable pub lance_step_effect : Color → Square → Bitboard
unfolding ray
lance_step_effect black s = ray 0 s
lance_step_effect white s = ray 1 s

abbrev pub cross45_steps : List Delta
cross45_steps = by down down ∷ by up down ∷ by down up ∷ by up up ∷ []

unfoldable pub cross45_step_effect : Square → Bitboard
unfolding step_table
cross45_step_effect s = step_table cross45_steps (pos 1) s

-- The loop of `build_multi_ray` over its directions.
unfoldable pub multi_ray_bits : List ℕ → Square → (bits : ℕ) → ℕ
unfolding ray_bits
multi_ray_bits [] s bits = bits
multi_ray_bits (d ∷ ds) s bits = multi_ray_bits ds s (bit_or bits (ray_bits d s))

unfoldable pub rook_step_effect : Square → Bitboard
unfolding multi_ray_bits from_raw
rook_step_effect s = from_raw (multi_ray_bits (0 ∷ 1 ∷ 2 ∷ 3 ∷ []) s 0)

unfoldable pub bishop_step_effect : Square → Bitboard
unfolding multi_ray_bits from_raw
bishop_step_effect s = from_raw (multi_ray_bits (4 ∷ 5 ∷ 6 ∷ 7 ∷ []) s 0)

abbrev pub dir_count : ℕ
dir_count = 8

-- `isign` and `iabs`.
abbrev pub isign : ℤ → ℤ
isign (pos zero) = pos 0
isign (pos (suc n)) = pos 1
isign (negsuc n) = negsuc 0

abbrev pub iabs : ℤ → ℤ
iabs (pos n) = pos n
iabs (negsuc n) = pos (suc n)

-- The scan of `DIRECTIONS` from entry `i` on.
unfoldable pub find_direction : List Delta → (i : ℕ) → (udf udr : ℤ) → ℕ
find_direction [] i udf udr = dir_count
find_direction (d ∷ ds) i udf udr =
    let rest = find_direction ds (suc i) udf udr in
    if same_ℤ d.df udf && same_ℤ d.dr udr then i else rest

unfoldable pub dir_index : Square → Square → ℕ
unfolding find_direction ◌-ℤ◌
dir_index a b =
    let df = file_of b -ℤ file_of a in
    let dr = rank_of b -ℤ rank_of a in
    if same_ℤ df (pos 0) && same_ℤ dr (pos 0)
    then dir_count
    else if same_ℤ df (pos 0)
    then find_direction directions 0 (pos 0) (isign dr)
    else if same_ℤ dr (pos 0)
    then find_direction directions 0 (isign df) (pos 0)
    else if same_ℤ (iabs df) (iabs dr)
    then find_direction directions 0 (isign df) (isign dr)
    else dir_count

unfoldable pub ray_toward : Square → Square → Bitboard
unfolding dir_index ray
ray_toward a b = if ltb (dir_index a b) dir_count then ray (dir_index a b) a else Bitboard.empty

unfoldable pub ray_dir : Square → Square → Option Delta
unfolding dir_index
ray_dir a b = if ltb (dir_index a b) dir_count then some (direction (dir_index a b)) else none

-- The loop of `between_pair`, with fuel for its rounds.
unfoldable pub between_loop : (fuel : ℕ) → (b : Square) → (df dr file rank : ℤ) → (bits : ℕ) → ℕ
unfolding on_board ◌+ℤ◌
between_loop zero b df dr file rank bits = bits
between_loop (suc n) b df dr file rank bits =
    let f = file +ℤ df in
    let r = rank +ℤ dr in
    let rest = between_loop n b df dr f r (bit_or bits (2 ^ to_index f r)) in
    if not (on_board f r) then bits else if to_index f r == b then bits else rest

unfoldable pub between_pair : Square → Square → ℕ
unfolding between_loop dir_index
between_pair a b =
    let d = dir_index a b in
    if ltb d dir_count
    then between_loop ray_fuel b (direction d).df (direction d).dr (file_of a) (rank_of a) 0
    else 0

unfoldable pub between : Square → Square → Bitboard
unfolding between_pair from_raw
between a b = from_raw (between_pair a b)

-- The loops of `build_file_masks` and `build_rank_masks`, on `n` squares `step` apart.
unfoldable pub mask_bits : (n step i bits : ℕ) → ℕ
mask_bits zero step i bits = bits
mask_bits (suc n) step i bits = mask_bits n step (i + step) (bit_or bits (2 ^ i))

unfoldable pub file_mask : ℕ → Bitboard
unfolding mask_bits from_raw
file_mask f = from_raw (mask_bits ranks 1 (f * ranks) 0)

unfoldable pub rank_mask : ℕ → Bitboard
unfolding mask_bits from_raw
rank_mask r = from_raw (mask_bits files ranks r 0)

unfoldable pub promotion_zone : Color → Bitboard
unfolding rank_mask union
promotion_zone black = union (union (rank_mask 0) (rank_mask 1)) (rank_mask 2)
promotion_zone white = union (union (rank_mask 6) (rank_mask 7)) (rank_mask 8)

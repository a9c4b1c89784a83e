-- ===== src/State/Bitboard/Rays.antt =====
-- The steps, the directions and the rays of crates/attic-state/src/bitboard.rs, with the step lists of
-- movegen.rs. A table that the source builds at compile time is a function of its index.
use attic_shogi.Prelude.{
  ℕ, zero, suc, ◌+◌, ◌*◌, ◌/◌, ◌%◌, ◌^◌, bit_or, Bool, ◌&&◌, not, List, [], ◌∷◌, if◌then◌else◌,
  get_or,
}
use attic_shogi.Prelude.Int.{ℤ, pos, negsuc, ◌+ℤ◌, ◌*ℤ◌, ltb_ℤ, pos_part}
use attic_shogi.State.Piece.{Color, black, white}
use attic_shogi.State.Square.{Square, ranks, files}
use attic_shogi.State.Bitboard.{Bitboard, from_raw}

-- `file_of` and `rank_of`, as the signed numbers that they return.
abbrev pub file_of : ℕ → ℤ
file_of i = pos (i / ranks)

abbrev pub rank_of : ℕ → ℤ
rank_of i = pos (i % ranks)

unfoldable pub on_board : ℤ → ℤ → Bool
on_board f r =
    not (ltb_ℤ f (pos 0)) && ltb_ℤ f (pos files) && not (ltb_ℤ r (pos 0)) && ltb_ℤ r (pos ranks)

-- A file and a rank on the board.
abbrev pub to_index : ℤ → ℤ → ℕ
to_index f r = pos_part f * ranks + pos_part r

-- `(df, dr)`.
pub record Delta : Type 0 where
  pub df : ℤ
  pub dr : ℤ

abbrev pub up : ℤ
up = pos 1

abbrev pub down : ℤ
down = negsuc 0

abbrev pub still : ℤ
still = pos 0

abbrev pub by : ℤ → ℤ → Delta
by f r = record { df = f; dr = r }

abbrev pub pawn_steps : List Delta
pawn_steps = by still down ∷ []

abbrev pub knight_steps : List Delta
knight_steps = by up (negsuc 1) ∷ by down (negsuc 1) ∷ []

abbrev pub silver_steps : List Delta
silver_steps = by still down ∷ by up down ∷ by down down ∷ by up up ∷ by down up ∷ []

abbrev pub gold_steps : List Delta
gold_steps =
    by still down ∷ by up down ∷ by down down ∷ by up still ∷ by down still ∷ by still up ∷ []

abbrev pub king_steps : List Delta
king_steps =
    by still down
    ∷ by up down
    ∷ by down down
    ∷ by up still
    ∷ by down still
    ∷ by still up
    ∷ by up up
    ∷ by down up
    ∷ []

-- The inner loop of `build_step_table`.
unfoldable pub step_bits : List Delta → (sign file rank : ℤ) → (bits : ℕ) → ℕ
unfolding on_board ◌+ℤ◌ ◌*ℤ◌
step_bits [] sign file rank bits = bits
step_bits (d ∷ ds) sign file rank bits =
    let f = file +ℤ d.df in
    let r = rank +ℤ d.dr *ℤ sign in
    step_bits ds sign file rank (if on_board f r then bit_or bits (2 ^ to_index f r) else bits)

-- `build_step_table` at one square.
unfoldable pub step_table : List Delta → ℤ → Square → Bitboard
unfolding step_bits from_raw
step_table deltas sign s = from_raw (step_bits deltas sign (file_of s) (rank_of s) 0)

-- `build_colored`: the sign by the colour.
abbrev pub dr_sign : Color → ℤ
dr_sign black = pos 1
dr_sign white = negsuc 0

unfoldable pub pawn_attacks : Color → Square → Bitboard
unfolding step_table
pawn_attacks c s = step_table pawn_steps (dr_sign c) s

unfoldable pub knight_attacks : Color → Square → Bitboard
unfolding step_table
knight_attacks c s = step_table knight_steps (dr_sign c) s

unfoldable pub silver_attacks : Color → Square → Bitboard
unfolding step_table
silver_attacks c s = step_table silver_steps (dr_sign c) s

unfoldable pub gold_attacks : Color → Square → Bitboard
unfolding step_table
gold_attacks c s = step_table gold_steps (dr_sign c) s

unfoldable pub king_attacks : Color → Square → Bitboard
unfolding step_table
king_attacks c s = step_table king_steps (dr_sign c) s

-- `DIRECTIONS`: 0 to 3 along files and ranks, 4 to 7 the diagonals.
abbrev pub directions : List Delta
directions =
    by still down
    ∷ by still up
    ∷ by up still
    ∷ by down still
    ∷ by up down
    ∷ by down down
    ∷ by up up
    ∷ by down up
    ∷ []

abbrev pub direction : ℕ → Delta
direction d = get_or directions d (by still still)

-- The loop of `build_ray_bits_table`, with fuel for its rounds.
unfoldable pub ray_loop : (fuel : ℕ) → (df dr file rank : ℤ) → (bits : ℕ) → ℕ
unfolding on_board ◌+ℤ◌
ray_loop zero df dr file rank bits = bits
ray_loop (suc n) df dr file rank bits =
    let f = file +ℤ df in
    let r = rank +ℤ dr in
    let rest = ray_loop n df dr f r (bit_or bits (2 ^ to_index f r)) in
    if on_board f r then rest else bits

-- Nine rounds: a ray has eight squares at most.
abbrev pub ray_fuel : ℕ
ray_fuel = 9

-- `RAY_BITS[dir][sq]`.
unfoldable pub ray_bits : ℕ → Square → ℕ
unfolding ray_loop
ray_bits d s = ray_loop ray_fuel (direction d).df (direction d).dr (file_of s) (rank_of s) 0

-- `RAY[dir][sq]`.
unfoldable pub ray : ℕ → Square → Bitboard
unfolding ray_bits from_raw
ray d s = from_raw (ray_bits d s)

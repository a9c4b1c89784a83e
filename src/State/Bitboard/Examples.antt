-- ===== src/State/Bitboard/Examples.antt =====
-- The attacks, steps, lines and loops of sets of squares, at squares of a small board.
use attic_shogi.Prelude.{ℕ, ◌+◌, ◌<◌, ◌≡◌, ◌^◌, refl, true, false, [], ◌∷◌, some, length, arith}
use attic_shogi.State.Piece.{black, white}
use attic_shogi.State.Bitboard.{Bitboard, test}
use attic_shogi.State.Bitboard.Laws.{IsCanonical}
use attic_shogi.State.Bitboard.Rays.{
  direction, file_of, rank_of, ray_loop, gold_steps, dr_sign, step_table, knight_attacks,
}
use attic_shogi.State.Bitboard.Sliders.{lance_attacks, rook_attacks, bishop_attacks}
use attic_shogi.State.Bitboard.Walk.{line, is_in}
use attic_shogi.State.Bitboard.Steps.{leads, step_table-leads}
use attic_shogi.State.Bitboard.Attacks.{
  reaches, rook_directions, bishop_directions, lance_attacks-reaches, rook_attacks-reaches,
  bishop_attacks-reaches,
}
use attic_shogi.State.Bitboard.Geometry.{between, between_loop}
use attic_shogi.State.Bitboard.Between.{before, between-before}
use attic_shogi.State.Bitboard.Rounds.{RayRun, BetweenRun, loops_end}
use attic_shogi.State.Bitboard.Iter.{popcount, squares, size, collect}
use attic_shogi.State.Bitboard.Squares.{members, collect-members}

-- Pieces on the squares 38 and 67, on the file and the rank of the square 40, and on 60.
abbrev three : Bitboard
three = record { p0 = 2 ^ 38 + 2 ^ 60; p1 = 2 ^ 4 }

three-IsCanonical : IsCanonical three
three-IsCanonical = record { lane0 = omega arith; lane1 = omega arith }

-- The rook on 40 stops at the pieces on 38 and 67.
rook_test :
    collect 82 (squares (rook_attacks 40 three))
    ≡ some (4 ∷ 13 ∷ 22 ∷ 31 ∷ 38 ∷ 39 ∷ 41 ∷ 42 ∷ 43 ∷ 44 ∷ 49 ∷ 58 ∷ 67 ∷ [])
unfolding rook_attacks collect
rook_test = refl

bishop_test :
    collect 82 (squares (bishop_attacks 40 three))
    ≡ some (0 ∷ 8 ∷ 10 ∷ 16 ∷ 20 ∷ 24 ∷ 30 ∷ 32 ∷ 48 ∷ 50 ∷ 56 ∷ 60 ∷ 64 ∷ 72 ∷ [])
unfolding bishop_attacks collect
bishop_test = refl

-- A knight on the first file does not come back on the last.
knight_test : collect 82 (squares (knight_attacks black 4)) ≡ some (11 ∷ [])
unfolding knight_attacks collect
knight_test = refl

lance_attacks-reaches_example :
    test (lance_attacks black 40 three) 38 ≡ reaches (0 ∷ []) 40 three 38
lance_attacks-reaches_example = lance_attacks-reaches 40 38 three (omega arith) (omega arith) black

rook_attacks-reaches_example : test (rook_attacks 40 three) 76 ≡ reaches rook_directions 40 three 76
rook_attacks-reaches_example = rook_attacks-reaches 40 76 three (omega arith) (omega arith)

bishop_attacks-reaches_example :
    test (bishop_attacks 40 three) 60 ≡ reaches bishop_directions 40 three 60
bishop_attacks-reaches_example = bishop_attacks-reaches 40 60 three (omega arith) (omega arith)

step_table-leads_example :
    test (step_table gold_steps (dr_sign white) 40) 41
    ≡ leads gold_steps (dr_sign white) (file_of 40) (rank_of 40) (file_of 41) (rank_of 41)
step_table-leads_example = step_table-leads gold_steps (dr_sign white) 40 41 (omega arith)

between-before_example :
    ((d : ℕ)
      → d < 8
      → is_in 60 (line d 40) ≡ true
      → test (between 40 60) 50 ≡ is_in 50 (before 60 (line d 40)))
    × (((d : ℕ) → d < 8 → is_in 60 (line d 40) ≡ false) → test (between 40 60) 50 ≡ false)
between-before_example = between-before 40 60 50 (omega arith) (omega arith) (omega arith)

loops_end_example :
    RayRun
      (direction 6).df
      (direction 6).dr
      (file_of 40)
      (rank_of 40)
      0
      (ray_loop 9 (direction 6).df (direction 6).dr (file_of 40) (rank_of 40) 0)
    × BetweenRun 60
        (direction 6).df
        (direction 6).dr
        (file_of 40)
        (rank_of 40)
        0
        (between_loop 9 60 (direction 6).df (direction 6).dr (file_of 40) (rank_of 40) 0)
loops_end_example = loops_end 6 40 60 0 (omega arith) (omega arith)

collect-members_example :
    (collect 82 (squares three) ≡ some (members three))
    × (size (squares three) ≡ length (members three))
    × (popcount three ≡ length (members three))
collect-members_example = collect-members three three-IsCanonical

-- ===== src/State/Bitboard/Rounds.antt =====
-- The loops along a line, crates/attic-state/src/bitboard.rs, end, within the nine rounds that
-- the model gives them.
use attic_shogi.Prelude.{
  ℕ, zero, suc, ◌^◌, ◌<◌, ◌≡◌, refl, bit_or, true, false, ◌==◌, ltb, ltb→lt, Bool-cases, inl, inr,
  length, arith,
}
use attic_shogi.Prelude.Int.{ℤ, ◌+ℤ◌}
use attic_shogi.State.Square.{Square, IsSquare, square_count}
use attic_shogi.State.Bitboard.Rays.{
  on_board, to_index, direction, file_of, rank_of, ray_loop, ray_fuel,
}
use attic_shogi.State.Bitboard.Walk.{walk, line}
use attic_shogi.State.Bitboard.Lines.{all_below, all_below-lt}
use attic_shogi.State.Bitboard.Geometry.{dir_count, between_loop}

-- The runs of the source's loops, which have no bound of their own: from a file, a rank and the bits
-- so far to the bits at the end. There is a run only where the loop ends.
pub data RayRun (df dr : ℤ) : ℤ → ℤ → ℕ → ℕ → Type 0 where
  leave :
      (file rank : ℤ) (bits : ℕ)
      → on_board (file +ℤ df) (rank +ℤ dr) ≡ false
      → RayRun df dr file rank bits bits
  advance :
      (file rank : ℤ) (bits result : ℕ)
      → on_board (file +ℤ df) (rank +ℤ dr) ≡ true
      → RayRun df dr
          (file +ℤ df)
          (rank +ℤ dr)
          (bit_or bits (2 ^ to_index (file +ℤ df) (rank +ℤ dr)))
          result
      → RayRun df dr file rank bits result

pub data BetweenRun (b : Square) (df dr : ℤ) : ℤ → ℤ → ℕ → ℕ → Type 0 where
  leave :
      (file rank : ℤ) (bits : ℕ)
      → on_board (file +ℤ df) (rank +ℤ dr) ≡ false
      → BetweenRun b df dr file rank bits bits
  meet :
      (file rank : ℤ) (bits : ℕ)
      → on_board (file +ℤ df) (rank +ℤ dr) ≡ true
      → (to_index (file +ℤ df) (rank +ℤ dr) == b) ≡ true
      → BetweenRun b df dr file rank bits bits
  advance :
      (file rank : ℤ) (bits result : ℕ)
      → on_board (file +ℤ df) (rank +ℤ dr) ≡ true
      → (to_index (file +ℤ df) (rank +ℤ dr) == b) ≡ false
      → BetweenRun b df dr
          (file +ℤ df)
          (rank +ℤ dr)
          (bit_or bits (2 ^ to_index (file +ℤ df) (rank +ℤ dr)))
          result
      → BetweenRun b df dr file rank bits result

module _ (df dr : ℤ) where
  ray_loop-RayRun :
      (k : ℕ) (file rank : ℤ) (bits : ℕ)
      → length (walk k df dr file rank) < k
      → RayRun df dr file rank bits (ray_loop k df dr file rank bits)
  unfolding ray_loop walk
  ray_loop-RayRun zero file rank bits h = absurd (omega arith)
  ray_loop-RayRun (suc k) file rank bits h =
      elim (Bool-cases (on_board (file +ℤ df) (rank +ℤ dr))) [
        | inl on ↦
            rw (ray_loop, on)
              (advance file rank bits _ on (
                ray_loop-RayRun k (file +ℤ df) (rank +ℤ dr)
                  (bit_or bits (2 ^ to_index (file +ℤ df) (rank +ℤ dr))) (ground (arith, h, on))))
        | inr off ↦ rw (ray_loop, off) (leave file rank bits off)
      ]

  between_loop-BetweenRun :
      (b : Square) (k : ℕ) (file rank : ℤ) (bits : ℕ)
      → length (walk k df dr file rank) < k
      → BetweenRun b df dr file rank bits (between_loop k b df dr file rank bits)
  unfolding between_loop walk
  between_loop-BetweenRun b zero file rank bits h = absurd (omega arith)
  between_loop-BetweenRun b (suc k) file rank bits h =
      elim (Bool-cases (on_board (file +ℤ df) (rank +ℤ dr))) [
        | inl on ↦ elim (Bool-cases (to_index (file +ℤ df) (rank +ℤ dr) == b)) [
          | inl met ↦ rw (between_loop, on, met) (meet file rank bits on met)
          | inr unmet ↦
              rw (between_loop, on, unmet)
                (advance file rank bits _ on unmet (
                  between_loop-BetweenRun b k (file +ℤ df) (rank +ℤ dr)
                    (bit_or bits (2 ^ to_index (file +ℤ df) (rank +ℤ dr))) (ground (arith, h, on))))
        ]
        | inr off ↦ rw (between_loop, off) (leave file rank bits off)
      ]

short_lines :
    all_below dir_count (λ d. all_below square_count (λ s. ltb (length (line d s)) ray_fuel)) ≡ true
unfolding all_below line
short_lines = refl

short_line : (d : ℕ) (s : Square) → d < dir_count → IsSquare s → length (line d s) < ray_fuel
short_line d s hd hs = ltb→lt _ _ (
    all_below-lt square_count (λ x. ltb (length (line d x)) ray_fuel) s
      (all_below-lt dir_count (λ e. all_below square_count (λ x. ltb (length (line e x)) ray_fuel))
        d short_lines hd)
      hs)

-- In each of the eight directions from a square of the board, the loop that builds a ray ends by
-- leaving the board, and the loop that builds the squares between two ends by leaving the board or at
-- the second square, both with the bits that nine rounds give.
pub loops_end :
    (d : ℕ) (s b : Square) (bits : ℕ)
    → d < dir_count
    → IsSquare s
    → RayRun
        (direction d).df
        (direction d).dr
        (file_of s)
        (rank_of s)
        bits
        (ray_loop ray_fuel (direction d).df (direction d).dr (file_of s) (rank_of s) bits)
      × BetweenRun b
          (direction d).df
          (direction d).dr
          (file_of s)
          (rank_of s)
          bits
          (between_loop ray_fuel b (direction d).df (direction d).dr (file_of s) (rank_of s) bits)
unfolding line
loops_end d s b bits hd hs = (
  ray_loop-RayRun (direction d).df (direction d).dr ray_fuel (file_of s) (rank_of s) bits
      (short_line d s hd hs),
  between_loop-BetweenRun (direction d).df (direction d).dr b ray_fuel (file_of s) (rank_of s) bits
      (short_line d s hd hs),
)

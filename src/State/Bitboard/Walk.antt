-- ===== src/State/Bitboard/Walk.antt =====
-- The reference for the sliders of crates/attic-state/src/bitboard.rs: a walk from a square, one step
-- after the other, up to and including the first occupied square.
use attic_shogi.Prelude.{
  ℕ, zero, suc, ◌+◌, ◌-◌, ◌%◌, ◌^◌, max, ◌≡◌, inl, inr, ap, ◌∙◌, bit_or, Bool, true, false, ◌||◌,
  ◌==◌, ltb, if◌then◌else◌, Bool-cases, List, [], ◌∷◌, arith,
}
use attic_shogi.Prelude.Int.{ℤ, pos, negsuc, ◌+ℤ◌}
use attic_shogi.Prelude.Bits.{digit, digit-lt, digit-zero, digit-bit_or}
use attic_shogi.Prelude.Masks.{digit-two_pow}
use attic_shogi.Prelude.Borrow.{digit-mod, digit-div}
use attic_shogi.State.Square.{Square, IsSquare}
use attic_shogi.State.Bitboard.{Bitboard, from_raw, test, lane_split, lane0_span}
use attic_shogi.State.Bitboard.Laws.{member}
use attic_shogi.State.Bitboard.Raw.{low_lem, high_lem}
use attic_shogi.State.Bitboard.Rays.{
  on_board, to_index, direction, file_of, rank_of, ray_loop, ray_fuel, ray_bits, ray,
}

-- The squares from a file and a rank on, in steps of `df` and `dr`, while they are on the board.
unfoldable pub walk : (n : ℕ) → (df dr file rank : ℤ) → List Square
unfolding on_board ◌+ℤ◌
walk zero df dr file rank = []
walk (suc n) df dr file rank =
    let f = file +ℤ df in
    let r = rank +ℤ dr in
    let rest = walk n df dr f r in if on_board f r then to_index f r ∷ rest else []

-- The squares of a direction from a square on, the nearest first.
unfoldable pub line : ℕ → Square → List Square
unfolding walk
line d s = walk ray_fuel (direction d).df (direction d).dr (file_of s) (rank_of s)

to_index-IsSquare : (f r : ℤ) → on_board f r ≡ true → IsSquare (to_index f r)
unfolding on_board
to_index-IsSquare (pos f) (pos r) h = ground arith
to_index-IsSquare (pos f) (negsuc r) h = ground arith
to_index-IsSquare (negsuc f) r h = ground arith

abbrev pub is_in : Square → List Square → Bool
is_in t [] = false
is_in t (s ∷ ss) = t == s || is_in t ss

walk-IsSquare :
    (n : ℕ) (df dr file rank : ℤ) (u : Square)
    → is_in u (walk n df dr file rank) ≡ true
    → IsSquare u
unfolding walk
walk-IsSquare zero df dr file rank u h = cc
walk-IsSquare (suc n) df dr file rank u h = elim (Bool-cases (on_board (file +ℤ df) (rank +ℤ dr))) [
  | inl on ↦ ground (
    arith,
    on,
    to_index-IsSquare (file +ℤ df) (rank +ℤ dr),
    walk-IsSquare n df dr (file +ℤ df) (rank +ℤ dr) u,
  )
  | inr off ↦ absurd (ground (arith, off))
]

-- The squares of a line are on the board.
pub is_in-IsSquare : (d : ℕ) (s u : Square) → is_in u (line d s) ≡ true → IsSquare u
unfolding line
is_in-IsSquare d s u h =
    walk-IsSquare ray_fuel (direction d).df (direction d).dr (file_of s) (rank_of s) u h

-- Up to and including the first occupied square.
unfoldable pub cut : Bitboard → List Square → List Square
cut occ [] = []
cut occ (t ∷ ts) = t ∷ (if test occ t then [] else cut occ ts)

digit-ray_loop :
    (n : ℕ) (df dr file rank : ℤ) (bits t : ℕ)
    → digit (ray_loop n df dr file rank bits) t
      ≡ max (digit bits t) (if is_in t (walk n df dr file rank) then 1 else 0)
unfolding ray_loop walk
digit-ray_loop zero df dr file rank bits t = omega arith
digit-ray_loop (suc n) df dr file rank bits t =
    let f = file +ℤ df in
    let r = rank +ℤ dr in
    elim (Bool-cases (on_board f r)) [
      | inl on ↦
          rw (ray_loop, walk, on)
            (digit-ray_loop n df dr f r (bit_or bits (2 ^ to_index f r)) t
              ∙ ground (
                arith,
                digit-bit_or bits (2 ^ to_index f r) t,
                digit-two_pow (to_index f r) t,
                digit-lt bits t,
              ))
      | inr off ↦ rw (ray_loop, walk, off) (omega arith)
    ]

pub member-from_raw : (bits t : ℕ) → IsSquare t → member (from_raw bits) t ≡ digit bits t
unfolding member
member-from_raw bits t h = elim (Bool-cases (ltb lane_split t)) [
  | inl second ↦
      rw (second, high_lem bits)
        (digit-div 63 (bits % 2 ^ 81) (t - lane0_span)
          ∙ ground (
            arith,
            digit-mod 81 bits (t - lane0_span + 63),
            ap (digit bits) (
                let e : ltb lane_split t ≡ true → t - lane0_span + 63 ≡ t = (λ p. ground arith) in
                e second),
          ))
  | inr first ↦ rw (first, low_lem bits) (ground (arith, digit-mod 63 bits t))
]

-- The ray of a square holds the squares of its line.
pub member-ray :
    (d : ℕ) (s t : Square) → IsSquare t → member (ray d s) t ≡ (if is_in t (line d s) then 1 else 0)
unfolding ray ray_bits line
member-ray d s t h =
    member-from_raw (ray_bits d s) t h
    ∙ digit-ray_loop ray_fuel (direction d).df (direction d).dr (file_of s) (rank_of s) 0 t
    ∙ omega (arith, digit-zero t)

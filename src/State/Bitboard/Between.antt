-- ===== src/State/Bitboard/Between.antt =====
-- The squares between two squares, crates/attic-state/src/bitboard.rs, against the walk from the one to
-- the other.
use attic_shogi.Prelude.{
  ℕ, zero, suc, ◌^◌, ◌<◌, max, ◌≡◌, ◌∙◌, ap, refl, bit_or, Bool, true, false, ◌&&◌, ◌||◌, not, ◌==◌,
  ltb→lt, ltb, if◌then◌else◌, Bool-cases, ℕ_discrete, inl, inr, List, [], ◌∷◌, arith,
}
use attic_shogi.Prelude.Int.{ℤ, ◌+ℤ◌}
use attic_shogi.Prelude.Bits.{digit, digit-lt, digit-zero, digit-bit_or}
use attic_shogi.Prelude.Masks.{digit-two_pow}
use attic_shogi.State.Square.{Square, IsSquare, square_count}
use attic_shogi.State.Bitboard.{test}
use attic_shogi.State.Bitboard.Laws.{test-eq_member}
use attic_shogi.State.Bitboard.Rays.{file_of, rank_of, on_board, to_index, direction, ray_fuel}
use attic_shogi.State.Bitboard.Walk.{walk, line, is_in, member-from_raw}
use attic_shogi.State.Bitboard.Lines.{all_below, all_below-lt}
use attic_shogi.State.Bitboard.Geometry.{dir_count, dir_index, between_loop, between_pair, between}

-- The squares of a list before a square.
abbrev pub before : Square → List Square → List Square
before b [] = []
before b (s ∷ ss) = if s == b then [] else s ∷ before b ss

digit-between_loop :
    (n : ℕ) (b : Square) (df dr file rank : ℤ) (bits t : ℕ)
    → digit (between_loop n b df dr file rank bits) t
      ≡ max (digit bits t) (if is_in t (before b (walk n df dr file rank)) then 1 else 0)
unfolding between_loop walk
digit-between_loop zero b df dr file rank bits t = omega arith
digit-between_loop (suc n) b df dr file rank bits t =
    let f = file +ℤ df in
    let r = rank +ℤ dr in
    elim (Bool-cases (on_board f r)) [
      | inr off ↦ rw (between_loop, walk, off) (omega arith)
      | inl on ↦ elim (Bool-cases (to_index f r == b)) [
        | inl met ↦ rw (between_loop, walk, on, met) (omega arith)
        | inr past ↦
            rw (between_loop, walk, on, past)
              (digit-between_loop n b df dr f r (bit_or bits (2 ^ to_index f r)) t
                ∙ ground (
                  arith,
                  digit-bit_or bits (2 ^ to_index f r) t,
                  digit-two_pow (to_index f r) t,
                  digit-lt bits t,
                ))
      ]
    ]

-- The direction from a square to one of its line, and the line that holds a square with a direction.
abbrev points : ℕ → Square → List Square → Bool
points d a [] = true
points d a (b ∷ bs) = dir_index a b == d && points d a bs

abbrev pointed : Square → Square → Bool
pointed a b = not (ltb (dir_index a b) dir_count) || is_in b (line (dir_index a b) a)

direction_table :
    (all_below square_count (λ a. all_below dir_count (λ d. points d a (line d a))) ≡ true)
    × (all_below square_count (λ a. all_below square_count (λ b. pointed a b)) ≡ true)
unfolding all_below dir_index line
direction_table = (refl, refl)

points-is_in :
    (d : ℕ) (a b : Square) (bs : List Square)
    → points d a bs ≡ true
    → is_in b bs ≡ true
    → dir_index a b ≡ d
points-is_in d a b [] p m = cc
points-is_in d a b (c ∷ bs) p m = elim (ℕ_discrete b c) [
  | yes same ↦ rw same (ground arith)
  | no other ↦ points-is_in d a b bs (ground arith) (ground arith)
]

-- What stands in a direction from a square, if any, has that direction.
dir_index-line :
    (d : ℕ) (a b : Square)
    → d < dir_count
    → IsSquare a
    → is_in b (line d a) ≡ true
    → dir_index a b ≡ d
dir_index-line d a b hd ha m =
    points-is_in d a b (line d a)
      (all_below-lt dir_count (λ e. points e a (line e a)) d
        (all_below-lt square_count (λ x. all_below dir_count (λ e. points e x (line e x))) a
          direction_table.0 ha)
        hd)
      m

line-dir_index :
    (a b : Square)
    → IsSquare a
    → IsSquare b
    → dir_index a b < dir_count
    → is_in b (line (dir_index a b) a) ≡ true
line-dir_index a b ha hb h = ground (
  arith,
  all_below-lt square_count (λ x. pointed a x) b
      (all_below-lt square_count (λ y. all_below square_count (λ x. pointed y x)) a
        direction_table.1 ha)
      hb,
)

zero_bit : (m : Bool) (x : ℕ) → x ≡ 0 → not (max x (if m then 1 else 0) == 0) ≡ m
zero_bit m x e = ground arith

lt→ltb : (x y : ℕ) → x < y → ltb x y ≡ true
lt→ltb x y h = ground arith

module _ (a b t : Square) (ha : IsSquare a) (hb : IsSquare b) (ht : IsSquare t) where
  test-between : test (between a b) t ≡ not (digit (between_pair a b) t == 0)
  unfolding between
  test-between =
      test-eq_member (between a b) t
      ∙ ap (λ x. not (x == 0)) (member-from_raw (between_pair a b) t ht)

  -- For squares of the board: where the second is on the line of a direction from the first, the
  -- set between them holds the squares of that line before the second; where it is on none of the
  -- eight lines, the set is empty.
  pub between-before :
      ((d : ℕ)
        → d < dir_count
        → is_in b (line d a) ≡ true
        → test (between a b) t ≡ is_in t (before b (line d a)))
      × (((d : ℕ) → d < dir_count → is_in b (line d a) ≡ false) → test (between a b) t ≡ false)
  unfolding between_pair line
  between-before = (aligned, apart)
    where
      pair_on :
          (d : ℕ)
          → d < dir_count
          → dir_index a b ≡ d
          → between_pair a b
            ≡ between_loop ray_fuel b (direction d).df (direction d).dr (file_of a) (rank_of a) 0
      pair_on d hd e = rw (between_pair, e, lt→ltb d dir_count hd) refl

      aligned :
          (d : ℕ)
          → d < dir_count
          → is_in b (line d a) ≡ true
          → test (between a b) t ≡ is_in t (before b (line d a))
      aligned d hd m =
          test-between
          ∙ ap (λ x. not (digit x t == 0)) (pair_on d hd (dir_index-line d a b hd ha m))
          ∙ ap (λ x. not (x == 0))
              (digit-between_loop ray_fuel b (direction d).df (direction d).dr (file_of a)
                (rank_of a) 0 t)
          ∙ zero_bit (is_in t (before b (line d a))) (digit 0 t) (digit-zero t)

      apart : ((d : ℕ) → d < dir_count → is_in b (line d a) ≡ false) → test (between a b) t ≡ false
      apart none_on = elim (Bool-cases (ltb (dir_index a b) dir_count)) [
        | inl some_dir ↦
            let there = line-dir_index a b ha hb (ltb→lt _ _ some_dir) in
            let nowhere = none_on (dir_index a b) (ltb→lt _ _ some_dir) in
            absurd (cc (there, nowhere))
        | inr no_dir ↦
            test-between
            ∙ ap (λ x. not (digit x t == 0))
                (let e : between_pair a b ≡ 0 = rw (between_pair, no_dir) refl in e)
            ∙ ap (λ x. not (x == 0)) (digit-zero t)
      ]

-- ===== src/State/Bitboard/Squares.antt =====
-- What a loop over a set of squares gives, crates/attic-state/src/bitboard.rs: its squares in ascending
-- order, each once.
use attic_shogi.Prelude.{
  ℕ, zero, suc, ◌+◌, ◌-◌, ◌^◌, ◌≤◌, ◌<◌, ◌≡◌, ◌≢◌, ◌∙◌, ap, ap₂, sym, refl, ◌==◌, ==_ne,
  if◌then◌else◌, Bool-cases, ℕ_discrete, inl, inr, List, [], ◌∷◌, ◌++◌, some, length, arith,
}
use attic_shogi.Prelude.Bits.{digit, digit-zero}
use attic_shogi.Prelude.Masks.{digit_above}
use attic_shogi.State.Square.{Square, from_index}
use attic_shogi.State.Bitboard.{Bitboard, lane0_span}
use attic_shogi.State.Bitboard.Laws.{member, IsCanonical}
use attic_shogi.State.Bitboard.Slide.{and-lt}
use attic_shogi.State.Bitboard.Iter.{
  zeros_from, trailing_zeros, ones_from, count_ones, popcount, BitboardIter, squares, done, item,
  expect_square, next, size, collect,
}
use attic_shogi.State.Bitboard.Lowest.{
  set_bits, set_bits_trim, length-set_bits, drop_lowest, lowest_first,
}

-- What is left of a loop: the squares of the first lane, then those of the second.
abbrev left_over : BitboardIter → List ℕ
left_over it = set_bits 64 0 0 it.p0 ++ set_bits 64 0 lane0_span it.p1

abbrev IsIter : BitboardIter → Type 0
IsIter it = (it.p0 < 2 ^ 63) × (it.p1 < 2 ^ 18)

set_bits-zero : (base : ℕ) → set_bits 64 0 base 0 ≡ []
unfolding set_bits
set_bits-zero base = set_bits_trim 64 0 0 base 0 (omega arith) (λ j h. digit-zero j)

-- One round: the end where nothing is left, and else its first square, and what follows it.
data Round (it : BitboardIter) : Type 0 where
  ended : next it ≡ done → left_over it ≡ [] → Round it
  gave :
      (s : Square) (it' : BitboardIter)
      → next it ≡ item s it'
      → left_over it ≡ s ∷ left_over it'
      → IsIter it'
      → Round it

expect_square_lem : (i : ℕ) (it : BitboardIter) → i < 81 → expect_square i it ≡ item i it
unfolding from_index
expect_square_lem i it h = ground arith

first_lane : (it : BitboardIter) → IsIter it → it.p0 ≢ 0 → Round it
unfolding next trailing_zeros
first_lane it v some_bit =
    let x = it.p0 in
    let (first, bit) =
      lowest_first 64 0 0 x (omega arith) (λ i h. absurd (omega arith)) some_bit
        (omega (arith, v.0)) in
    let there : zeros_from 64 0 x + 0 ≡ zeros_from 64 0 x = omega arith in
    let small : zeros_from 64 0 x < 63 =
      ground (arith, digit_above 63 x (zeros_from 64 0 x) v.0, ap (digit x) there) in
    gave (zeros_from 64 0 x) (record it { p0 = drop_lowest x })
      (rw (next, ==_ne it.p0 0 some_bit) (expect_square_lem (zeros_from 64 0 x) _ (omega arith)))
      (ap (λ ks. ks ++ set_bits 64 0 lane0_span it.p1)
        (first
          ∙ ap (λ i. i ∷ set_bits 64 0 0 (drop_lowest x))
              (let e : zeros_from 64 0 x + 0 + 0 ≡ zeros_from 64 0 x = omega arith in e)))
      (and-lt 63 x (x - 1) (omega (arith, v.0)), v.1)

second_lane : (it : BitboardIter) → IsIter it → it.p0 ≡ 0 → it.p1 ≢ 0 → Round it
unfolding next trailing_zeros
second_lane it v none_first some_bit =
    let x = it.p1 in
    let (first, bit) =
      lowest_first 64 0 lane0_span x (omega arith) (λ i h. absurd (omega arith)) some_bit
        (omega (arith, v.1)) in
    let there : zeros_from 64 0 x + 0 ≡ zeros_from 64 0 x = omega arith in
    let small : zeros_from 64 0 x < 18 =
      ground (arith, digit_above 18 x (zeros_from 64 0 x) v.1, ap (digit x) there) in
    let empty : set_bits 64 0 0 it.p0 ≡ [] = ap (set_bits 64 0 0) none_first ∙ set_bits-zero 0 in
    gave (zeros_from 64 0 x + lane0_span) (record it { p1 = drop_lowest x })
      (rw (next, none_first, ==_ne it.p1 0 some_bit)
        (expect_square_lem (zeros_from 64 0 x + lane0_span) _ (omega arith)))
      (ap (λ ks. ks ++ set_bits 64 0 lane0_span it.p1) empty
        ∙ first
        ∙ ap (λ i. (i + lane0_span) ∷ set_bits 64 0 lane0_span (drop_lowest x)) there
        ∙ ap (λ ks. (zeros_from 64 0 x + lane0_span) ∷ ks)
            (ap (λ ks. ks ++ set_bits 64 0 lane0_span (drop_lowest x)) (sym empty)))
      (v.0, and-lt 18 x (x - 1) (omega (arith, v.1)))

round : (it : BitboardIter) → IsIter it → Round it
unfolding next
round it v = elim (ℕ_discrete it.p0 0) [
  | no some_bit ↦ first_lane it v some_bit
  | yes none_first ↦ elim (ℕ_discrete it.p1 0) [
    | no some_bit ↦ second_lane it v none_first some_bit
    | yes none_second ↦ ended (rw (next, none_first, none_second) refl) (
        ap₂ (λ x y. set_bits 64 0 0 x ++ set_bits 64 0 lane0_span y) none_first none_second
        ∙ ap₂ ◌++◌ (set_bits-zero 0) (set_bits-zero lane0_span))
  ]
]

collect-left_over :
    (fuel : ℕ) (it : BitboardIter)
    → IsIter it
    → length (left_over it) < fuel
    → collect fuel it ≡ some (left_over it)
unfolding collect
collect-left_over zero it v h = absurd (omega arith)
collect-left_over (suc n) it v h = elim (round it v) [
  | ended e l ↦ rw (collect, e, l) refl
  | gave s it' e l v' ↦
      rw (collect, e, collect-left_over n it' v' (omega (arith, ap length l)), l) refl
]

-- The reference: of `n` squares from `k` on, those that are in a set.
unfoldable pub members_from : (n k : ℕ) → Bitboard → List Square
members_from zero k a = []
members_from (suc n) k a =
    let rest = members_from n (suc k) a in if member a k == 0 then rest else k ∷ rest

-- All squares of a set, in ascending order.
abbrev pub members : Bitboard → List Square
members a = members_from 81 0 a

length-members_from : (n k : ℕ) (a : Bitboard) → length (members_from n k a) ≤ n
unfolding members_from
length-members_from zero k a = omega arith
length-members_from (suc n) k a = ground (arith, length-members_from n (suc k) a)

first_members :
    (n m k : ℕ) (a : Bitboard)
    → n + k ≡ 63
    → m ≡ n + 18
    → members_from m k a ≡ set_bits n k 0 a.p0 ++ members_from 18 63 a
unfolding set_bits members_from
first_members zero m k a e f =
    let all : m ≡ 18 = omega arith in let end : k ≡ 63 = omega arith in rw (all, end) refl
first_members (suc n) zero k a e f = absurd (omega arith)
first_members (suc n) (suc m) k a e f =
    let here : member a k ≡ digit a.p0 k = unfold member in ground arith in
    let same : k + 0 ≡ k = omega arith in
    rw (members_from, set_bits, here, same, first_members n m (suc k) a (omega arith) (omega arith))
      (elim (Bool-cases (digit a.p0 k == 0)) [ inl off ↦ rw off refl | inr on ↦ rw on refl ])

second_members : (n k : ℕ) (a : Bitboard) → members_from n (k + 63) a ≡ set_bits n k lane0_span a.p1
unfolding set_bits members_from
second_members zero k a = refl
second_members (suc n) k a =
    let here : member a (k + 63) ≡ digit a.p1 k =
      unfold member in
      ground (arith, ap (digit a.p1) (let e : k + 63 - 63 ≡ k = omega arith in e)) in
    let step : suc (k + 63) ≡ suc k + 63 = omega arith in
    rw (members_from, set_bits, here, step, second_members n (suc k) a) refl

left_over-members : (a : Bitboard) → IsCanonical a → left_over (squares a) ≡ members a
left_over-members a c =
    ap₂ ◌++◌
      (set_bits_trim 64 63 0 0 a.p0 (omega arith)
        (λ j h. digit_above 63 a.p0 j c.lane0 (omega arith)))
      (set_bits_trim 64 18 0 lane0_span a.p1 (omega arith)
          (λ j h. digit_above 18 a.p1 j c.lane1 (omega arith))
        ∙ sym (second_members 18 0 a))
    ∙ sym (first_members 63 81 0 a refl refl)

length-++ : (xs ys : List ℕ) → length (xs ++ ys) ≡ length xs + length ys
length-++ [] ys = omega arith
length-++ (x ∷ xs) ys = omega (arith, length-++ xs ys)

lt_of_le_81 : (m n : ℕ) → m ≡ n → n ≤ 81 → m < 82
lt_of_le_81 m n e h = omega arith

-- A loop over a set whose spare bits are clear ends within 82 rounds without a panic, with the
-- squares that are in the set in ascending order; `size_hint` at its start and `popcount` are
-- their number.
pub collect-members :
    (a : Bitboard)
    → IsCanonical a
    → (collect 82 (squares a) ≡ some (members a))
      × (size (squares a) ≡ length (members a))
      × (popcount a ≡ length (members a))
unfolding size count_ones popcount
collect-members a c = (
  collect-left_over 82 (squares a) (c.lane0, c.lane1)
        (lt_of_le_81 _ _ (ap length whole) (length-members_from 81 0 a))
      ∙ ap some whole,
  counted,
  counted,
)
  where
    whole : left_over (squares a) ≡ members a
    whole = left_over-members a c

    counted : ones_from 64 0 a.p0 + ones_from 64 0 a.p1 ≡ length (members a)
    counted =
        ap₂ ◌+◌ (sym (length-set_bits 64 0 0 a.p0)) (sym (length-set_bits 64 0 lane0_span a.p1))
        ∙ sym (length-++ (set_bits 64 0 0 a.p0) (set_bits 64 0 lane0_span a.p1))
        ∙ ap length whole

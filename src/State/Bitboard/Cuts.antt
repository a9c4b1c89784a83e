-- ===== src/State/Bitboard/Cuts.antt =====
-- What a set is that cuts a line at its first occupied square, for the sliders of
-- crates/attic-state/src/bitboard.rs, and that it holds what the walk reaches.
use attic_shogi.Prelude.{
  ℕ, ◌<◌, ◌≡◌, ◌≢◌, inl, inr, ap, Bool, true, false, ◌&&◌, ltb, if◌then◌else◌, Bool-cases,
  ℕ_discrete, List, [], ◌∷◌, arith,
}
use attic_shogi.State.Square.{Square, IsSquare}
use attic_shogi.State.Bitboard.{Bitboard, test}
use attic_shogi.State.Bitboard.Laws.{member, member-lt, test-eq_member}
use attic_shogi.State.Bitboard.Walk.{is_in, cut}

-- An order of the squares of a line: each is before all that follow it.
abbrev pub before_all : (Square → ℕ) → Square → List Square → Bool
before_all f t [] = true
before_all f t (u ∷ us) = ltb (f t) (f u) && before_all f t us

abbrev pub ascends : (Square → ℕ) → List Square → Bool
ascends f [] = true
ascends f (t ∷ ts) = before_all f t ts && ascends f ts

before-is_in :
    (f : Square → ℕ) (t u : Square) (ts : List Square)
    → before_all f t ts ≡ true
    → is_in u ts ≡ true
    → f t < f u
before-is_in f t u [] b m = cc
before-is_in f t u (s ∷ ts) b m = elim (ℕ_discrete u s) [
  | yes same ↦ rw same (ground arith)
  | no other ↦ before-is_in f t u ts (ground arith) (ground arith)
]

cut-is_in :
    (occ : Bitboard) (t : Square) (ts : List Square)
    → is_in t (cut occ ts) ≡ true
    → is_in t ts ≡ true
unfolding cut
cut-is_in occ t [] h = h
cut-is_in occ t (s ∷ ts) h = ground (arith, cut-is_in occ t ts)

-- What the walk reaches has no occupied square before it.
cut-free :
    (f : Square → ℕ) (occ : Bitboard) (t u : Square) (ts : List Square)
    → ascends f ts ≡ true
    → is_in t (cut occ ts) ≡ true
    → is_in u ts ≡ true
    → f u < f t
    → member occ u ≡ 0
unfolding cut
cut-free f occ t u [] a m n l = cc
cut-free f occ t u (s ∷ ts) a m n l = elim (ℕ_discrete t s) [
  | yes same ↦ elim (ℕ_discrete u s) [
    | yes also ↦ absurd (omega (arith, ap f same, ap f also))
    | no other ↦
        absurd (omega (arith, ap f same, before-is_in f s u ts (ground arith) (ground arith)))
  ]
  | no past ↦ elim (Bool-cases (test occ s)) [
    | inl full ↦ absurd (ground (arith, full))
    | inr free ↦ elim (ℕ_discrete u s) [
      | yes also ↦ rw also (ground (arith, free, test-eq_member occ s))
      | no other ↦ cut-free f occ t u ts (ground arith) (ground (arith, free)) (ground arith) l
    ]
  ]
]

-- What it does not reach has one.
cut-blocked :
    (f : Square → ℕ) (occ : Bitboard) (t : Square) (ts : List Square)
    → ascends f ts ≡ true
    → is_in t ts ≡ true
    → is_in t (cut occ ts) ≡ false
    → (u : Square) × (is_in u ts ≡ true) × (f u < f t) × (member occ u ≡ 1)
unfolding cut
cut-blocked f occ t [] a m n = cc
cut-blocked f occ t (s ∷ ts) a m n =
    let apart : t ≢ s = λ e. ground (arith, e) in
    let inside : is_in t ts ≡ true = ground arith in
    elim (Bool-cases (test occ s)) [
      | inl full ↦ (
        s,
        ground arith,
        before-is_in f s t ts (ground arith) inside,
        ground (arith, full, test-eq_member occ s, member-lt occ s),
      )
      | inr free ↦
          let (u, here, lower, occupied) =
            cut-blocked f occ t ts (ground arith) inside (ground (arith, free)) in
          (u, ground arith, lower, occupied)
    ]

-- What cuts a line at its first occupied square, as a set: a square of the line with no occupied
-- one before it is in the set, one after an occupied one is not, and none off the line is.
pub record Cuts (f : Square → ℕ) (occ : Bitboard) (ts : List Square) (res : Square → ℕ)
    : Type 0 where
  pub open_ :
      (t : Square)
      → IsSquare t
      → is_in t ts ≡ true
      → ((u : Square) → is_in u ts ≡ true → f u < f t → member occ u ≡ 0)
      → res t ≡ 1
  pub shut :
      (t u : Square) → IsSquare t → is_in u ts ≡ true → f u < f t → member occ u ≡ 1 → res t ≡ 0
  pub off : (t : Square) → IsSquare t → is_in t ts ≡ false → res t ≡ 0

-- Such a set holds what the walk reaches.
pub Cuts-cut :
    {f : Square → ℕ} {occ : Bitboard} {ts : List Square} {res : Square → ℕ} (t : Square)
    → ascends f ts ≡ true
    → Cuts f occ ts res
    → IsSquare t
    → res t ≡ (if is_in t (cut occ ts) then 1 else 0)
Cuts-cut {f} {occ} {ts} {res} t a c h = elim (Bool-cases (is_in t (cut occ ts))) [
  | inl reached ↦
      rw reached
        (c.open_ t h (cut-is_in occ t ts reached) (λ u n l. cut-free f occ t u ts a reached n l))
  | inr not_reached ↦ rw not_reached (elim (Bool-cases (is_in t ts)) [
    | inl inside ↦
        let (u, here, lower, occupied) = cut-blocked f occ t ts a inside not_reached in
        c.shut t u h here lower occupied
    | inr outside ↦ c.off t h outside
  ])
]

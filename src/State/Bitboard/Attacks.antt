-- ===== src/State/Bitboard/Attacks.antt =====
-- The sliders of crates/attic-state/src/bitboard.rs against the walk: each part of a lance, rook or
-- bishop cuts its line at the first occupied square.
use attic_shogi.Prelude.{
  ℕ, ◌≡◌, ◌∙◌, ap, ap₂, refl, Bool, true, false, ltb, Bool-cases, inl, inr, ◌||◌, List, [], ◌∷◌,
  arith,
}
use attic_shogi.State.Piece.{Color, black, white}
use attic_shogi.State.Square.{Square, IsSquare}
use attic_shogi.State.Bitboard.{Bitboard, union, test}
use attic_shogi.State.Bitboard.Laws.{member, member-union, test-eq_member}
use attic_shogi.State.Bitboard.Rays.{ray, file_of, rank_of, king_steps, dr_sign, king_attacks}
use attic_shogi.State.Bitboard.Steps.{leads, step_table-leads}
use attic_shogi.State.Bitboard.Sliders.{
  lance_attacks, rook_file, rook_rank, rook_attacks, bishop_attacks, horse_attacks, dragon_attacks,
}
use attic_shogi.State.Bitboard.Slide.{slide}
use attic_shogi.State.Bitboard.Files.{file_up-eq_slide, file_down-Cuts}
use attic_shogi.State.Bitboard.Walk.{line, is_in, cut}
use attic_shogi.State.Bitboard.Cuts.{ascends, Cuts, Cuts-cut}
use attic_shogi.State.Bitboard.Lines.{
  bit_index, reversed_index, ascends_0, ascends_1, ascends_2, ascends_3, ascends_4, ascends_5,
  ascends_6, ascends_7,
}
use attic_shogi.State.Bitboard.Slides.{slide-Cuts, slide_back, slide_back-Cuts}

-- The rank part of the rook and the diagonals of the bishop are slides of their rays, those toward
-- lower squares between byte reversals.
rook_rank_lem :
    (s : Square) (occ : Bitboard)
    → rook_rank s occ ≡ union (slide_back occ (ray 3 s)) (slide occ (ray 2 s))
unfolding rook_rank slide
rook_rank_lem s occ = refl

bishop_attacks_lem :
    (s : Square) (occ : Bitboard)
    → bishop_attacks s occ
      ≡ union
          (union (slide_back occ (ray 5 s)) (slide occ (ray 4 s)))
          (union (slide_back occ (ray 7 s)) (slide occ (ray 6 s)))
unfolding bishop_attacks slide
bishop_attacks_lem s occ = refl

-- What the walks of some directions reach: the squares up to and including the first occupied one.
abbrev pub reaches : List ℕ → Square → Bitboard → Square → Bool
reaches [] s occ t = false
reaches (d ∷ ds) s occ t = is_in t (cut occ (line d s)) || reaches ds s occ t

-- Black's lance runs down the file, White's up.
abbrev pub lance_direction : Color → ℕ
lance_direction black = 0
lance_direction white = 1

abbrev pub rook_directions : List ℕ
rook_directions = 0 ∷ 1 ∷ 2 ∷ 3 ∷ []

abbrev pub bishop_directions : List ℕ
bishop_directions = 4 ∷ 5 ∷ 6 ∷ 7 ∷ []

test-union : (a b : Bitboard) (t : Square) → test (union a b) t ≡ test a t || test b t
test-union a b t = ground (
  arith,
  test-eq_member (union a b) t,
  test-eq_member a t,
  test-eq_member b t,
  member-union a b t,
)

-- A set that cuts a line holds what the walk reaches.
test-Cuts :
    {f : Square → ℕ} (occ a : Bitboard) (d : ℕ) (s t : Square)
    → ascends f (line d s) ≡ true
    → Cuts f occ (line d s) (member a)
    → IsSquare t
    → test a t ≡ is_in t (cut occ (line d s))
test-Cuts occ a d s t up c h = ground (arith, test-eq_member a t, Cuts-cut t up c h)

module _ (s t : Square) (occ : Bitboard) (hs : IsSquare s) (ht : IsSquare t) where
  test-slide :
      (d : ℕ)
      → ascends bit_index (line d s) ≡ true
      → test (slide occ (ray d s)) t ≡ is_in t (cut occ (line d s))
  test-slide d up = test-Cuts occ (slide occ (ray d s)) d s t up (slide-Cuts d s occ) ht

  test-slide_back :
      (d : ℕ)
      → ascends reversed_index (line d s) ≡ true
      → test (slide_back occ (ray d s)) t ≡ is_in t (cut occ (line d s))
  test-slide_back d up =
      test-Cuts occ (slide_back occ (ray d s)) d s t up (slide_back-Cuts d s occ) ht

  -- On every square and under every occupancy, a lance attacks what a walk from its square down
  -- the file (Black) or up the file (White) reaches: the squares up to and including the first
  -- occupied one.
  pub lance_attacks-reaches :
      (c : Color) → test (lance_attacks c s occ) t ≡ reaches (lance_direction c ∷ []) s occ t
  unfolding lance_attacks
  lance_attacks-reaches black =
      test-Cuts occ (lance_attacks black s occ) 0 s t (ascends_0 s hs) (file_down-Cuts s occ hs) ht
      ∙ ground arith
  lance_attacks-reaches white =
      ap (λ a. test a t) (file_up-eq_slide s occ hs) ∙ test-slide 1 (ascends_1 s hs) ∙ ground arith

  rook_file_lem : rook_file s occ ≡ union (lance_attacks white s occ) (lance_attacks black s occ)
  unfolding rook_file lance_attacks union
  rook_file_lem = elim (Bool-cases (ltb 62 s)) [ inl second ↦ rw second | inr first ↦ rw first ]

  -- On every square and under every occupancy, a rook attacks what the walks from its square in
  -- the four directions along files and ranks reach.
  pub rook_attacks-reaches : test (rook_attacks s occ) t ≡ reaches rook_directions s occ t
  unfolding rook_attacks
  rook_attacks-reaches =
      test-union (rook_rank s occ) (rook_file s occ) t
      ∙ ground (
        arith,
        ap (λ a. test a t) (rook_rank_lem s occ),
        test-union (slide_back occ (ray 3 s)) (slide occ (ray 2 s)) t,
        test-slide_back 3 (ascends_3 s hs),
        test-slide 2 (ascends_2 s hs),
        ap (λ a. test a t) rook_file_lem,
        test-union (lance_attacks white s occ) (lance_attacks black s occ) t,
        lance_attacks-reaches black,
        lance_attacks-reaches white,
      )

  -- On every square and under every occupancy, a bishop attacks what the walks from its square in
  -- the four diagonal directions reach.
  pub bishop_attacks-reaches : test (bishop_attacks s occ) t ≡ reaches bishop_directions s occ t
  bishop_attacks-reaches =
      ap (λ a. test a t) (bishop_attacks_lem s occ)
      ∙ test-union (union (slide_back occ (ray 5 s)) (slide occ (ray 4 s)))
          (union (slide_back occ (ray 7 s)) (slide occ (ray 6 s))) t
      ∙ ground (
        arith,
        test-union (slide_back occ (ray 5 s)) (slide occ (ray 4 s)) t,
        test-union (slide_back occ (ray 7 s)) (slide occ (ray 6 s)) t,
        test-slide 4 (ascends_4 s hs),
        test-slide_back 5 (ascends_5 s hs),
        test-slide 6 (ascends_6 s hs),
        test-slide_back 7 (ascends_7 s hs),
      )

  -- On every square and under every occupancy, a horse attacks what a bishop's walks reach and the
  -- squares one step of a king away; a dragon what a rook's walks reach and the same squares.
  pub promoted_attacks-reaches :
      (test (horse_attacks s occ) t
        ≡ reaches bishop_directions s occ t
          || leads king_steps (dr_sign black) (file_of s) (rank_of s) (file_of t) (rank_of t))
      × (test (dragon_attacks s occ) t
          ≡ reaches rook_directions s occ t
            || leads king_steps (dr_sign black) (file_of s) (rank_of s) (file_of t) (rank_of t))
  unfolding horse_attacks dragon_attacks king_attacks
  promoted_attacks-reaches =
      let ring = step_table-leads king_steps (dr_sign black) s t ht in
      (
        test-union (bishop_attacks s occ) (king_attacks black s) t
            ∙ ap₂ ◌||◌ bishop_attacks-reaches ring,
        test-union (rook_attacks s occ) (king_attacks black s) t
            ∙ ap₂ ◌||◌ rook_attacks-reaches ring,
      )

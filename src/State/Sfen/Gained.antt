-- ===== src/State/Sfen/Gained.antt =====
-- The counts of a printed hand fill an empty one.
use attic_shogi.Prelude.{
  ℕ, zero, suc, ◌+◌, ◌≤◌, ◌<◌, ◌≡◌, refl, sym, ap, ◌∙◌, ◌==◌, if◌then◌else◌, Bool-cases, inl, inr,
  none, some, List, [], ◌∷◌, get_or, set, set-set, set-get_or, get_or_ext, get_or-set_self, length,
  length-set, eq_of_==, arith,
}
use native.Mathlib.Nat.{add-zero, zero-add}
use attic_shogi.State.Piece.{PieceKind, pawn, lance, knight, silver, gold, bishop, rook, king}
use attic_shogi.State.Hand
use attic_shogi.State.Hand.{Hand, increment, count, slot, max_by_kind}
use attic_shogi.State.Hand.Laws.{IsHand, cap}
use attic_shogi.State.Sfen.Parser.{increments}
use attic_shogi.State.Sfen.Printer.{hand_output_order}

-- The slot of a kind in hand.
abbrev index : PieceKind → ℕ
index k = elim (slot k) [ some i ↦ i | none ↦ 0 ]

index-lt : (k : PieceKind) → index k < 7
index-lt k = ground arith

increment-set :
    (k : PieceKind) (g : Hand)
    → get_or g (index k) 0 < cap k
    → increment g k ≡ set g (index k) (get_or g (index k) 0 + 1)
unfolding increment
increment-set king g h = absurd (omega arith)
increment-set k g h = ground arith

increments-set :
    (n : ℕ) (k : PieceKind) (g : Hand)
    → length g ≡ 7
    → get_or g (index k) 0 + n ≤ cap k
    → increments n k g ≡ set g (index k) (get_or g (index k) 0 + n)
unfolding increments
increments-set zero k g l h = rw (add-zero (get_or g (index k) 0)) (sym (set-get_or g (index k) 0))
increments-set (suc n) k g l h =
    let i = index k in
    let v = get_or g i 0 in
    let read : get_or (set g i (v + 1)) i 0 ≡ v + 1 =
      get_or-set_self g i (v + 1) 0 (omega (arith, index-lt k)) in
    let total : v + 1 + n ≡ v + suc n = omega arith in
    rw (increment-set k g (omega arith)) (
      increments-set n k (set g i (v + 1)) (length-set g i (v + 1) ∙ l) (omega (arith, read))
      ∙ ap (λ w. set (set g i (v + 1)) i w) (ap (λ w. w + n) read ∙ total)
      ∙ set-set g i (v + 1) (v + suc n))

-- What a printed count gives an empty slot.
unfoldable pub gained_kind : Hand → PieceKind → Hand → Hand
gained_kind h k g = if count h k == 0 then g else increments (count h k) k g

gained_kind-set :
    (h : Hand) (k : PieceKind) (g : Hand)
    → IsHand h
    → length g ≡ 7
    → get_or g (index k) 0 ≡ 0
    → gained_kind h k g ≡ set g (index k) (count h k)
unfolding gained_kind
gained_kind-set h k g v l e = elim (Bool-cases (count h k == 0)) [
  | inl free ↦
      let nothing : count h k ≡ get_or g (index k) 0 = eq_of_== (count h k) 0 free ∙ sym e in
      rw (free, nothing) (sym (set-get_or g (index k) 0))
  | inr held ↦ rw held (
      increments-set (count h k) k g l (omega (arith, v.within k))
      ∙ ap (λ w. set g (index k) w) (ap (λ w. w + count h k) e ∙ zero-add (count h k)))
]

unfoldable pub gained : Hand → List PieceKind → Hand → Hand
unfolding gained_kind
gained h [] g = g
gained h (k ∷ ks) g = gained h ks (gained_kind h k g)

-- A hand by its counts.
whole :
    (h : Hand)
    → IsHand h
    → (count h pawn
        ∷ count h lance
        ∷ count h knight
        ∷ count h silver
        ∷ count h gold
        ∷ count h bishop
        ∷ count h rook
        ∷ [])
      ≡ h
unfolding count
whole h v = get_or_ext 0 _ h (sym v.slots) same
  where
    same :
        (i : ℕ)
        → i < 7
        → get_or
            (get_or h 0 0
              ∷ get_or h 1 0
              ∷ get_or h 2 0
              ∷ get_or h 3 0
              ∷ get_or h 4 0
              ∷ get_or h 5 0
              ∷ get_or h 6 0
              ∷ [])
            i
            0
          ≡ get_or h i 0
    same zero p = refl
    same (suc zero) p = refl
    same (suc (suc zero)) p = refl
    same (suc (suc (suc zero))) p = refl
    same (suc (suc (suc (suc zero)))) p = refl
    same (suc (suc (suc (suc (suc zero))))) p = refl
    same (suc (suc (suc (suc (suc (suc zero)))))) p = refl
    same (suc (suc (suc (suc (suc (suc (suc i))))))) p = absurd (omega arith)

pub gained-all : (h : Hand) → IsHand h → gained h hand_output_order Hand.empty ≡ h
unfolding gained
gained-all h v =
    let g1 = set Hand.empty 6 (count h rook) in
    let g2 = set g1 5 (count h bishop) in
    let g3 = set g2 4 (count h gold) in
    let g4 = set g3 3 (count h silver) in
    let g5 = set g4 2 (count h knight) in
    let g6 = set g5 1 (count h lance) in
    rw
      (
        gained_kind-set h rook Hand.empty v refl refl,
        gained_kind-set h bishop g1 v refl refl,
        gained_kind-set h gold g2 v refl refl,
        gained_kind-set h silver g3 v refl refl,
        gained_kind-set h knight g4 v refl refl,
        gained_kind-set h lance g5 v refl refl,
        gained_kind-set h pawn g6 v refl refl,
      )
      (whole h v)

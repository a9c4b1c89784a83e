-- ===== src/State/Position/HandSum.antt =====
-- The hand key from scratch after one piece more or less in a hand.
use attic_shogi.Prelude.{ℕ, ◌+◌, ◌*◌, ◌%◌, ◌<◌, ◌≡◌, ◌≢◌, refl, List, [], ◌∷◌, arith}
use attic_shogi.State.Piece.{Color, black, white, PieceKind, king, PerColor, at, set_at}
use attic_shogi.Prelude.{false, ◌==◌, ==_refl, if◌then◌else◌}
use attic_shogi.State.Piece.{PieceKind-discrete, kind_index}
use attic_shogi.State.Hand.{Hand, count, increment, decrement}
use attic_shogi.State.Hand.Laws.{
  IsHand, cap, count-increment_self, count-increment_ne, count-decrement_self, count-decrement_ne,
}
use attic_shogi.State.Key.{word, hand_step}
use attic_shogi.State.Key.Bounds.{hand_step-lt}
use attic_shogi.State.Position.Types.{add64, sub64}
use attic_shogi.State.Position.Hash.{held_kinds, fold_hand, recomputed_hand_key}

-- The sum without wrapping.
abbrev total : Color → Hand → List PieceKind → ℕ
total c h [] = 0
total c h (k ∷ ks) = hand_step c k * count h k + total c h ks

fold_hand-total :
    (c : Color) (h : Hand) (ks : List PieceKind) (key : ℕ)
    → fold_hand c h ks key % word ≡ (key + total c h ks) % word
unfolding fold_hand
fold_hand-total c h [] key = omega arith
fold_hand-total c h (k ∷ ks) key =
    omega (arith, fold_hand-total c h ks ((key + hand_step c k * count h k % word) % word))

fold_hand-lt :
    (c : Color) (h : Hand) (ks : List PieceKind) (key : ℕ)
    → key < word
    → fold_hand c h ks key < word
unfolding fold_hand
fold_hand-lt c h [] key p = p
fold_hand-lt c h (k ∷ ks) key p = fold_hand-lt c h ks _ (omega arith)

pub recomputed_hand_key_lem :
    (hands : PerColor Hand)
    → recomputed_hand_key hands
      ≡ (total black hands.of_black held_kinds + total white hands.of_white held_kinds) % word
unfolding recomputed_hand_key
recomputed_hand_key_lem hands = omega (
  arith,
  fold_hand-total white hands.of_white held_kinds (fold_hand black hands.of_black held_kinds 0),
  fold_hand-total black hands.of_black held_kinds 0,
  fold_hand-lt white hands.of_white held_kinds (fold_hand black hands.of_black held_kinds 0)
      (fold_hand-lt black hands.of_black held_kinds 0 (omega arith)),
)

pub recomputed_hand_key-lt : (hands : PerColor Hand) → recomputed_hand_key hands < word
recomputed_hand_key-lt hands = omega (arith, recomputed_hand_key_lem hands)

-- How one term of the sum moves when the count of `k` does, by `d` up or down.
abbrev at_kind : PieceKind → PieceKind → ℕ → ℕ
at_kind j k d = if kind_index j == kind_index k then d else 0

other_index : (j k : PieceKind) → j ≢ k → (kind_index j == kind_index k) ≡ false
other_index j k n = ground arith

increment-term :
    (c : Color) (h : Hand) (k j : PieceKind)
    → IsHand h
    → count h k < cap k
    → hand_step c j * count (increment h k) j
      ≡ hand_step c j * count h j + at_kind j k (hand_step c j)
increment-term c h k j v p = elim (PieceKind-discrete j k) [
  | yes e ↦
      let up : count (increment h k) j ≡ count h j + 1 =
        rw e (omega (arith, count-increment_self h k v)) in
      rw (up, e, ==_refl (kind_index k)) (omega arith)
  | no n ↦ rw (count-increment_ne h j k n, other_index j k n) (omega arith)
]

decrement-term :
    (c : Color) (h : Hand) (k j : PieceKind)
    → IsHand h
    → 0 < count h k
    → hand_step c j * count (decrement h k) j + at_kind j k (hand_step c j)
      ≡ hand_step c j * count h j
decrement-term c h k j v p = elim (PieceKind-discrete j k) [
  | yes e ↦
      let down : count (decrement h k) j + 1 ≡ count h j =
        rw e (omega (arith, count-decrement_self h k v)) in
      rw (← down, e, ==_refl (kind_index k)) (omega arith)
  | no n ↦ rw (count-decrement_ne h j k n, other_index j k n) (omega arith)
]

-- Each kind but the king stands once among the kinds in hand.
abbrev at_kinds : Color → PieceKind → List PieceKind → ℕ
at_kinds c k [] = 0
at_kinds c k (j ∷ js) = at_kind j k (hand_step c j) + at_kinds c k js

at_kinds-held : (c : Color) (k : PieceKind) → k ≢ king → at_kinds c k held_kinds ≡ hand_step c k
at_kinds-held c king n = absurd (n refl)
at_kinds-held c k n = omega arith

totals-increment :
    (c : Color) (h : Hand) (k : PieceKind) (js : List PieceKind)
    → IsHand h
    → count h k < cap k
    → total c (increment h k) js ≡ total c h js + at_kinds c k js
totals-increment c h k [] v p = refl
totals-increment c h k (j ∷ js) v p =
    omega (arith, increment-term c h k j v p, totals-increment c h k js v p)

totals-decrement :
    (c : Color) (h : Hand) (k : PieceKind) (js : List PieceKind)
    → IsHand h
    → 0 < count h k
    → total c (decrement h k) js + at_kinds c k js ≡ total c h js
totals-decrement c h k [] v p = refl
totals-decrement c h k (j ∷ js) v p =
    omega (arith, decrement-term c h k j v p, totals-decrement c h k js v p)

not_king_of_room : (k : PieceKind) (n : ℕ) → n < cap k → k ≢ king
not_king_of_room k n p e = let q : n < cap king = rw e at p in omega arith

not_king_of_held : (h : Hand) (k : PieceKind) → IsHand h → 0 < count h k → k ≢ king
not_king_of_held h k v p = not_king_of_room k 0 (omega (arith, v.within k))

-- One piece more in the hand of `c`, which is within its caps and has room for it, is one step
-- more in the recomputed hand key.
pub hand_key-increment :
    (hands : PerColor Hand) (c : Color) (k : PieceKind)
    → IsHand (at hands c)
    → count (at hands c) k < cap k
    → recomputed_hand_key (set_at hands c (increment (at hands c) k))
      ≡ add64 (recomputed_hand_key hands) (hand_step c k)
hand_key-increment hands black k v p = omega (
  arith,
  recomputed_hand_key_lem hands,
  recomputed_hand_key_lem (set_at hands black (increment hands.of_black k)),
  totals-increment black hands.of_black k held_kinds v p,
  at_kinds-held black k (not_king_of_room k (count hands.of_black k) p),
)
hand_key-increment hands white k v p = omega (
  arith,
  recomputed_hand_key_lem hands,
  recomputed_hand_key_lem (set_at hands white (increment hands.of_white k)),
  totals-increment white hands.of_white k held_kinds v p,
  at_kinds-held white k (not_king_of_room k (count hands.of_white k) p),
)

-- One piece less in the hand of `c`, which is within its caps and has one, is one step less in the
-- recomputed hand key.
pub hand_key-decrement :
    (hands : PerColor Hand) (c : Color) (k : PieceKind)
    → IsHand (at hands c)
    → 0 < count (at hands c) k
    → recomputed_hand_key (set_at hands c (decrement (at hands c) k))
      ≡ sub64 (recomputed_hand_key hands) (hand_step c k)
hand_key-decrement hands black k v p = omega (
  arith,
  recomputed_hand_key_lem hands,
  recomputed_hand_key_lem (set_at hands black (decrement hands.of_black k)),
  totals-decrement black hands.of_black k held_kinds v p,
  at_kinds-held black k (not_king_of_held hands.of_black k v p),
  hand_step-lt black k,
)
hand_key-decrement hands white k v p = omega (
  arith,
  recomputed_hand_key_lem hands,
  recomputed_hand_key_lem (set_at hands white (decrement hands.of_white k)),
  totals-decrement white hands.of_white k held_kinds v p,
  at_kinds-held white k (not_king_of_held hands.of_white k v p),
  hand_step-lt white k,
)

-- ===== src/State/Hand/Laws.antt =====
-- The counters stay between 0 and their caps, and one step undoes the other away from the ends.
use attic_shogi.Prelude.{
  ℕ, ◌+◌, ◌-◌, ◌≤◌, ◌<◌, min, ◌≡◌, ◌≢◌, refl, none, some, get_or, length, length-set,
  get_or-set_self, get_or-set_ne, set-set, set-get_or, arith,
}
use attic_shogi.State.Piece.{PieceKind, PieceKind-discrete, king}
use attic_shogi.State.Hand.{Hand, hand_kinds, max_by_kind, empty, slot, count, increment, decrement}

-- The most copies of a kind that a hand holds.
abbrev pub cap : PieceKind → ℕ
cap k = elim (slot k) [ some i ↦ get_or max_by_kind i 0 | none ↦ 0 ]

pub record IsHand (h : Hand) : Type 0 where
  pub slots : length h ≡ hand_kinds
  pub within : (k : PieceKind) → count h k ≤ cap k

pub empty-IsHand : IsHand empty
empty-IsHand = record { slots = refl; within = bounds }
  where
    bounds : (k : PieceKind) → count empty k ≤ cap k
    bounds king = unfold count in omega arith
    bounds k = unfold count in omega arith

-- The slot of a kind, where it has one.
abbrev index : PieceKind → ℕ
index k = elim (slot k) [ some i ↦ i | none ↦ 0 ]

-- In a hand within its caps, a step up adds one copy of a kind below the cap, and none at it.
pub count-increment_self :
    (h : Hand) (k : PieceKind) → IsHand h → count (increment h k) k ≡ min (count h k + 1) (cap k)
unfolding count increment
count-increment_self h king v = refl
count-increment_self h k v =
    ground (arith, v.slots, v.within k, get_or-set_self h (index k) (get_or h (index k) 0 + 1) 0)

-- No other kind is touched.
pub count-increment_ne : (h : Hand) (j k : PieceKind) → j ≢ k → count (increment h k) j ≡ count h j
unfolding count increment
count-increment_ne h king king n = refl
count-increment_ne h j k n =
    ground (arith, get_or-set_ne h (index k) (index j) (get_or h (index k) 0 + 1) 0)

pub count-decrement_self :
    (h : Hand) (k : PieceKind) → IsHand h → count (decrement h k) k ≡ count h k - 1
unfolding count decrement
count-decrement_self h king v = refl
count-decrement_self h k v =
    ground (arith, v.slots, get_or-set_self h (index k) (get_or h (index k) 0 - 1) 0)

pub count-decrement_ne : (h : Hand) (j k : PieceKind) → j ≢ k → count (decrement h k) j ≡ count h j
unfolding count decrement
count-decrement_ne h king king n = refl
count-decrement_ne h j k n =
    ground (arith, get_or-set_ne h (index k) (index j) (get_or h (index k) 0 - 1) 0)

-- In a hand within its caps, a step down undoes a step up of a kind that was below its cap.
pub decrement-increment :
    (h : Hand) (k : PieceKind) → IsHand h → count h k < cap k → decrement (increment h k) k ≡ h
unfolding count increment decrement
decrement-increment h king v p = refl
decrement-increment h k v p = ground (
  arith,
  v.slots,
  get_or-set_self h (index k) (get_or h (index k) 0 + 1) 0,
  set-set h (index k) (get_or h (index k) 0 + 1) (get_or h (index k) 0),
  set-get_or h (index k) 0,
)

-- In a hand within its caps, a step up undoes a step down of a kind that was in hand.
pub increment-decrement :
    (h : Hand) (k : PieceKind) → IsHand h → 0 < count h k → increment (decrement h k) k ≡ h
unfolding count increment decrement
increment-decrement h king v p = refl
increment-decrement h k v p = ground (
  arith,
  v.slots,
  v.within k,
  get_or-set_self h (index k) (get_or h (index k) 0 - 1) 0,
  set-set h (index k) (get_or h (index k) 0 - 1) (get_or h (index k) 0),
  set-get_or h (index k) 0,
)

count-le_cap_of :
    (h g : Hand) (k : PieceKind)
    → IsHand h
    → count g k ≤ cap k
    → ((j : PieceKind) → j ≢ k → count g j ≡ count h j)
    → (j : PieceKind) → count g j ≤ cap j
count-le_cap_of h g k v self other j = elim (PieceKind-discrete j k) [
  | yes e ↦ rw e self
  | no n ↦ rw (other j n) (v.within j)
]

-- A step up keeps every count of a hand within its cap.
pub increment-IsHand : (h : Hand) (k : PieceKind) → IsHand h → IsHand (increment h k)
increment-IsHand h k v = record {
  slots = slots' k;
  within =
      count-le_cap_of h (increment h k) k v (omega (arith, count-increment_self h k v))
        (λ j n. count-increment_ne h j k n);
}
  where
    slots' : (k : PieceKind) → length (increment h k) ≡ hand_kinds
    slots' king = unfold increment in v.slots
    slots' k =
        unfold increment in
        ground (arith, v.slots, length-set h (index k) (get_or h (index k) 0 + 1))

-- So does a step down.
pub decrement-IsHand : (h : Hand) (k : PieceKind) → IsHand h → IsHand (decrement h k)
decrement-IsHand h k v = record {
  slots = slots' k;
  within =
      count-le_cap_of h (decrement h k) k v (omega (arith, count-decrement_self h k v, v.within k))
        (λ j n. count-decrement_ne h j k n);
}
  where
    slots' : (k : PieceKind) → length (decrement h k) ≡ hand_kinds
    slots' king = unfold decrement in v.slots
    slots' k =
        unfold decrement in
        ground (arith, v.slots, length-set h (index k) (get_or h (index k) 0 - 1))

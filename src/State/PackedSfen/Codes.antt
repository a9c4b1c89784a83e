-- ===== src/State/PackedSfen/Codes.antt =====
-- The hands and the piece box in the stream of a packed position, crates/attic-state/src/
-- packed_sfen.rs: their codes can be read back, so that the stream tells what is in the hands.
use attic_shogi.Prelude.{
  ℕ, suc, zero, ◌+◌, ◌≡◌, refl, sym, ap, ap₂, ◌∙◌, Bool, false, ◌&&◌, ◌==◌, if◌then◌else◌, List, [],
  ◌∷◌, ◌++◌, get_or, replicate, arith,
}
use mathlib.Core.List.{append_assoc}
use attic_shogi.State.Piece.{Color, black, white, PieceKind, kind_index, same_color}
use attic_shogi.State.Hand.{Hand, count}
use attic_shogi.State.PackedSfen.{hand_order}
use attic_shogi.State.PackedSfen.Stream.{Bits, repeated, IsDroppable}
use attic_shogi.State.PackedSfen.Whole.{hand_stream, box_stream, Droppables, order_Droppables}
use attic_shogi.State.PackedSfen.Box.{passed, passed_order}
use attic_shogi.State.PackedSfen.Reading.{
  Code, held, boxed, kind_of, code_bits, read_code, read_code-code_bits,
}

unfoldable pub all_bits : List Code → Bits
all_bits [] = []
all_bits (x ∷ xs) = code_bits x ++ all_bits xs

abbrev AllDroppable : List Code → Type 0
AllDroppable [] = Unit
AllDroppable (x ∷ xs) = IsDroppable (kind_of x) × AllDroppable xs

-- Codes with the same bits are the same codes.
all_bits-injective :
    (xs ys : List Code) → AllDroppable xs → AllDroppable ys → all_bits xs ≡ all_bits ys → xs ≡ ys
unfolding all_bits
all_bits-injective [] [] u v e = refl
all_bits-injective [] (y ∷ ys) u v e = cc (ap read_code e ∙ read_code-code_bits y (all_bits ys) v.0)
all_bits-injective (x ∷ xs) [] u v e =
    cc (ap read_code (sym e) ∙ read_code-code_bits x (all_bits xs) u.0)
all_bits-injective (x ∷ xs) (y ∷ ys) u v e =
    let both =
      sym (read_code-code_bits x (all_bits xs) u.0)
      ∙ ap read_code e
      ∙ read_code-code_bits y (all_bits ys) v.0 in
    let rest : all_bits xs ≡ all_bits ys = cc both in
    ap₂ ◌∷◌ (cc both) (all_bits-injective xs ys u.1 v.1 rest)

all_bits-++ : (xs ys : List Code) → all_bits (xs ++ ys) ≡ all_bits xs ++ all_bits ys
unfolding all_bits
all_bits-++ [] ys = refl
all_bits-++ (x ∷ xs) ys =
    rw (all_bits-++ xs ys) (sym (append_assoc (code_bits x) (all_bits xs) (all_bits ys)))

all_bits-replicate : (n : ℕ) (x : Code) → all_bits (replicate n x) ≡ repeated n (code_bits x)
unfolding all_bits repeated
all_bits-replicate zero x = refl
all_bits-replicate (suc n) x = ap (λ r. code_bits x ++ r) (all_bits-replicate n x)

-- The codes of a hand and of a box.
hand_codes : List PieceKind → Color → Hand → List Code
hand_codes [] c h = []
hand_codes (k ∷ ks) c h = replicate (count h k) (held k c) ++ hand_codes ks c h

box_codes : List PieceKind → List ℕ → List Code
box_codes [] box_count = []
box_codes (k ∷ ks) box_count =
    replicate (get_or box_count (kind_index k) 0) (boxed k) ++ box_codes ks box_count

all_bits-hand_codes :
    (ks : List PieceKind) (c : Color) (h : Hand) → all_bits (hand_codes ks c h) ≡ hand_stream ks c h
unfolding hand_codes hand_stream all_bits
all_bits-hand_codes [] c h = refl
all_bits-hand_codes (k ∷ ks) c h =
    all_bits-++ (replicate (count h k) (held k c)) (hand_codes ks c h)
    ∙ ap₂ ◌++◌ (all_bits-replicate (count h k) (held k c)) (all_bits-hand_codes ks c h)

all_bits-box_codes :
    (ks : List PieceKind) (xs : List ℕ) → all_bits (box_codes ks xs) ≡ box_stream ks xs
unfolding box_codes box_stream all_bits
all_bits-box_codes [] xs = refl
all_bits-box_codes (k ∷ ks) xs =
    all_bits-++ (replicate (get_or xs (kind_index k) 0) (boxed k)) (box_codes ks xs)
    ∙ ap₂ ◌++◌ (all_bits-replicate (get_or xs (kind_index k) 0) (boxed k))
        (all_bits-box_codes ks xs)

-- How often a piece of a kind in the hand of a colour is among the codes.
abbrev is_held : PieceKind → Color → Code → Bool
is_held k c (held j d) = kind_index j == kind_index k && same_color d c
is_held k c (boxed j) = false

unfoldable held_times : PieceKind → Color → List Code → ℕ
held_times k c [] = 0
held_times k c (x ∷ xs) = (if is_held k c x then 1 else 0) + held_times k c xs

held_times-++ :
    (k : PieceKind) (c : Color) (xs ys : List Code)
    → held_times k c (xs ++ ys) ≡ held_times k c xs + held_times k c ys
unfolding held_times
held_times-++ k c [] ys = omega arith
held_times-++ k c (x ∷ xs) ys = omega (arith, held_times-++ k c xs ys)

held_times-replicate :
    (k : PieceKind) (c : Color) (n : ℕ) (x : Code)
    → held_times k c (replicate n x) ≡ (if is_held k c x then n else 0)
unfolding held_times
held_times-replicate k c zero x = ground arith
held_times-replicate k c (suc n) x = ground (arith, held_times-replicate k c n x)

held_times-hand_codes :
    (k : PieceKind) (c d : Color) (ks : List PieceKind) (h : Hand)
    → held_times k c (hand_codes ks d h) ≡ (if same_color d c then passed ks h k else 0)
unfolding hand_codes held_times
held_times-hand_codes k c d [] h = ground arith
held_times-hand_codes k c d (j ∷ ks) h = ground (
  arith,
  held_times-++ k c (replicate (count h j) (held j d)) (hand_codes ks d h),
  held_times-replicate k c (count h j) (held j d),
  held_times-hand_codes k c d ks h,
)

held_times-box_codes :
    (k : PieceKind) (c : Color) (ks : List PieceKind) (xs : List ℕ)
    → held_times k c (box_codes ks xs) ≡ 0
unfolding box_codes held_times
held_times-box_codes k c [] xs = refl
held_times-box_codes k c (j ∷ ks) xs = omega (
  arith,
  held_times-++ k c (replicate (get_or xs (kind_index j) 0) (boxed j)) (box_codes ks xs),
  held_times-replicate k c (get_or xs (kind_index j) 0) (boxed j),
  held_times-box_codes k c ks xs,
)

copies-AllDroppable :
    (n : ℕ) (x : Code) (xs : List Code)
    → IsDroppable (kind_of x)
    → AllDroppable xs
    → AllDroppable (replicate n x ++ xs)
copies-AllDroppable zero x xs d u = u
copies-AllDroppable (suc n) x xs d u = (d, copies-AllDroppable n x xs d u)

hand_codes-AllDroppable :
    (ks : List PieceKind) (c : Color) (h : Hand) (xs : List Code)
    → Droppables ks
    → AllDroppable xs
    → AllDroppable (hand_codes ks c h ++ xs)
unfolding hand_codes
hand_codes-AllDroppable [] c h xs v u = u
hand_codes-AllDroppable (k ∷ ks) c h xs v u =
    rw (append_assoc (replicate (count h k) (held k c)) (hand_codes ks c h) xs) (
      copies-AllDroppable (count h k) (held k c) (hand_codes ks c h ++ xs) v.0
        (hand_codes-AllDroppable ks c h xs v.1 u))

box_codes-AllDroppable :
    (ks : List PieceKind) (xs : List ℕ) → Droppables ks → AllDroppable (box_codes ks xs)
unfolding box_codes
box_codes-AllDroppable [] xs v = tt
box_codes-AllDroppable (k ∷ ks) xs v =
    copies-AllDroppable (get_or xs (kind_index k) 0) (boxed k) (box_codes ks xs) v.0
      (box_codes-AllDroppable ks xs v.1)

-- The codes after the squares.
abbrev tail_codes : Hand → Hand → List ℕ → List Code
tail_codes h g xs =
    hand_codes hand_order black h ++ (hand_codes hand_order white g ++ box_codes hand_order xs)

abbrev pub tail_stream : Hand → Hand → List ℕ → Bits
tail_stream h g xs =
    hand_stream hand_order black h ++ (hand_stream hand_order white g ++ box_stream hand_order xs)

tail_lem : (h g : Hand) (xs : List ℕ) → all_bits (tail_codes h g xs) ≡ tail_stream h g xs
tail_lem h g xs = simp (all_bits-++, all_bits-hand_codes, all_bits-box_codes)

tail-AllDroppable : (h g : Hand) (xs : List ℕ) → AllDroppable (tail_codes h g xs)
tail-AllDroppable h g xs = hand_codes-AllDroppable hand_order black h _ order_Droppables (
    hand_codes-AllDroppable hand_order white g _ order_Droppables
      (box_codes-AllDroppable hand_order xs order_Droppables))

held_times-tail :
    (k : PieceKind) (h g : Hand) (xs : List ℕ)
    → IsDroppable k
    → (held_times k black (tail_codes h g xs) ≡ count h k)
      × (held_times k white (tail_codes h g xs) ≡ count g k)
held_times-tail k h g xs d = (omega (arith, of_color black), omega (arith, of_color white))
  where
    of_color :
        (c : Color)
        → held_times k c (tail_codes h g xs)
          ≡ (if same_color black c then count h k else 0)
            + (if same_color white c then count g k else 0)
    of_color c = ground (
      arith,
      held_times-++ k c (hand_codes hand_order black h)
          (hand_codes hand_order white g ++ box_codes hand_order xs),
      held_times-++ k c (hand_codes hand_order white g) (box_codes hand_order xs),
      held_times-hand_codes k c black hand_order h,
      held_times-hand_codes k c white hand_order g,
      held_times-box_codes k c hand_order xs,
      passed_order h k d,
      passed_order g k d,
    )

-- The stream after the squares tells both hands.
pub tail-injective :
    (h g h' g' : Hand) (xs xs' : List ℕ)
    → tail_stream h g xs ≡ tail_stream h' g' xs'
    → (k : PieceKind) → IsDroppable k
    → (count h k ≡ count h' k) × (count g k ≡ count g' k)
tail-injective h g h' g' xs xs' e k d =
    let same : tail_codes h g xs ≡ tail_codes h' g' xs' =
      all_bits-injective (tail_codes h g xs) (tail_codes h' g' xs') (tail-AllDroppable h g xs)
        (tail-AllDroppable h' g' xs') (tail_lem h g xs ∙ e ∙ sym (tail_lem h' g' xs')) in
    let one = held_times-tail k h g xs d in
    let two = held_times-tail k h' g' xs' d in
    (
      sym one.0 ∙ ap (held_times k black) same ∙ two.0,
      sym one.1 ∙ ap (held_times k white) same ∙ two.1,
    )

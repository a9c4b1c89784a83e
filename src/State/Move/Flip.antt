-- ===== src/State/Move/Flip.antt =====
-- `flip_move16`, the move on the board turned by 180 degrees.
use attic_shogi.Prelude.{
  ℕ, ◌+◌, ◌-◌, ◌*◌, ◌/◌, ◌%◌, ◌^◌, ◌<◌, ◌≡◌, refl, ◌∙◌, true, false, arith, Bool-cases, inl, inr,
}
use attic_shogi.Prelude.Bits.{bit_and_mask, bit_or_fields, bit_and-two_pow, digit-eq_div_mod}
use attic_shogi.State.Square.{Square, IsSquare}
use attic_shogi.State.Piece.{Color, PieceKind, Piece}
use attic_shogi.State.Move.{
  is_drop, is_promote, flip_field, flip_move16, move16, make, make_promote, make_drop,
}
use attic_shogi.State.Move.Fields.{
  is_drop_lem, is_promote_lem, make-eq_sum, make_promote-eq_sum, make_drop-eq_sum, ref_kind,
  ref_kind-lt,
}

flip_field_lem : (x : ℕ) → x < 2 ^ 7 → flip_field x ≡ (80 + 2 ^ 7 - x) % 2 ^ 7
unfolding flip_field
flip_field_lem x h = bit_and_mask 7 ((80 + 2 ^ 16 - x) % 2 ^ 16) ∙ omega arith

-- The fragment of a drop, field by field.
flip-drop :
    (m : ℕ)
    → is_drop m ≡ true
    → flip_move16 m ≡ (80 + 2 ^ 7 - m % 2 ^ 7) % 2 ^ 7 + m / 2 ^ 7 % 2 ^ 7 * 2 ^ 7 + 1 * 2 ^ 14
unfolding flip_move16 is_drop
flip-drop m h =
    rw
      (
        h,
        bit_and_mask 7 m,
        bit_and_mask 7 (m / 2 ^ 7),
        flip_field_lem (m % 2 ^ 7) (omega arith),
        bit_or_fields 7 ((80 + 2 ^ 7 - m % 2 ^ 7) % 2 ^ 7) (m / 2 ^ 7 % 2 ^ 7) (omega arith),
        bit_or_fields 14 ((80 + 2 ^ 7 - m % 2 ^ 7) % 2 ^ 7 + m / 2 ^ 7 % 2 ^ 7 * 2 ^ 7) 1
            (omega arith),
      )
      refl

flip-board :
    (m : ℕ)
    → is_drop m ≡ false
    → flip_move16 m
      ≡ (80 + 2 ^ 7 - m % 2 ^ 7) % 2 ^ 7
        + (80 + 2 ^ 7 - m / 2 ^ 7 % 2 ^ 7) % 2 ^ 7 * 2 ^ 7
        + m / 2 ^ 15 % 2 * 2 ^ 15
unfolding flip_move16 is_drop
flip-board m h =
    rw
      (
        h,
        bit_and_mask 7 m,
        bit_and_mask 7 (m / 2 ^ 7),
        bit_and-two_pow m 15,
        digit-eq_div_mod m 15,
        flip_field_lem (m % 2 ^ 7) (omega arith),
        flip_field_lem (m / 2 ^ 7 % 2 ^ 7) (omega arith),
        bit_or_fields 7 ((80 + 2 ^ 7 - m % 2 ^ 7) % 2 ^ 7)
            ((80 + 2 ^ 7 - m / 2 ^ 7 % 2 ^ 7) % 2 ^ 7) (omega arith),
        bit_or_fields 15
            ((80 + 2 ^ 7 - m % 2 ^ 7) % 2 ^ 7 + (80 + 2 ^ 7 - m / 2 ^ 7 % 2 ^ 7) % 2 ^ 7 * 2 ^ 7)
            (m / 2 ^ 15 % 2) (omega arith),
      )
      refl

-- Turning keeps the drop flag.
flip-is_drop : (m : ℕ) → is_drop (flip_move16 m) ≡ is_drop m
flip-is_drop m = elim (Bool-cases (is_drop m)) [
  | inl d ↦ is_drop_lem (flip_move16 m) ∙ rw d (ground (arith, flip-drop m d))
  | inr d ↦ is_drop_lem (flip_move16 m) ∙ rw d (ground (arith, flip-board m d))
]

-- Turning twice gives back any 16-bit fragment that is not both a drop and a promotion.
flip_move16-flip_move16 :
    (m : ℕ)
    → m < 2 ^ 16
    → (is_drop m ≡ true → is_promote m ≡ false)
    → flip_move16 (flip_move16 m) ≡ m
flip_move16-flip_move16 m h fits = elim (Bool-cases (is_drop m)) [
  | inl d ↦ ground (
    arith,
    flip-is_drop m,
    flip-drop m d,
    flip-drop (flip_move16 m),
    is_drop_lem m,
    is_promote_lem m,
    fits d,
  )
  | inr d ↦
      ground (arith, flip-is_drop m, flip-board m d, flip-board (flip_move16 m), is_drop_lem m)
]

move16_lem : (m : ℕ) → move16 m ≡ m % 2 ^ 16
unfolding move16
move16_lem m = bit_and_mask 16 m

turned-IsSquare : (s : Square) → IsSquare s → IsSquare (80 - s)
turned-IsSquare s h = omega arith

-- The fragment of a plain move between squares of the board, turned, is that of the plain move
-- between the turned squares, of any piece.
pub flip-make :
    (src dst : Square) (p q : Piece)
    → IsSquare src
    → IsSquare dst
    → flip_move16 (move16 (make src dst p)) ≡ move16 (make (80 - src) (80 - dst) q)
flip-make src dst p q hs hd =
    let fragment : move16 (make src dst p) ≡ dst + src * 2 ^ 7 =
      omega (arith, move16_lem (make src dst p), make-eq_sum src dst p hs hd) in
    let plain : is_drop (dst + src * 2 ^ 7) ≡ false =
      is_drop_lem (dst + src * 2 ^ 7) ∙ ground arith in
    rw fragment (
      omega (
        arith,
        flip-board (dst + src * 2 ^ 7) plain,
        move16_lem (make (80 - src) (80 - dst) q),
        make-eq_sum (80 - src) (80 - dst) q (turned-IsSquare src hs) (turned-IsSquare dst hd),
      ))

-- The fragment of a promoting move between squares of the board, turned, is that of the promoting
-- move between the turned squares, of any piece.
pub flip-make_promote :
    (src dst : Square) (p q : Piece)
    → IsSquare src
    → IsSquare dst
    → flip_move16 (move16 (make_promote src dst p)) ≡ move16 (make_promote (80 - src) (80 - dst) q)
flip-make_promote src dst p q hs hd =
    let fragment : move16 (make_promote src dst p) ≡ dst + src * 2 ^ 7 + 2 ^ 15 =
      omega (arith, move16_lem (make_promote src dst p), make_promote-eq_sum src dst p hs hd) in
    let plain : is_drop (dst + src * 2 ^ 7 + 2 ^ 15) ≡ false =
      is_drop_lem (dst + src * 2 ^ 7 + 2 ^ 15) ∙ ground arith in
    rw fragment (
      omega (
        arith,
        flip-board (dst + src * 2 ^ 7 + 2 ^ 15) plain,
        move16_lem (make_promote (80 - src) (80 - dst) q),
        make_promote-eq_sum (80 - src) (80 - dst) q (turned-IsSquare src hs)
            (turned-IsSquare dst hd),
      ))

-- The fragment of a drop on a square of the board, turned, is that of the drop of the same kind on
-- the turned square, by any colour.
pub flip-make_drop :
    (k : PieceKind) (c d : Color) (dst : Square)
    → IsSquare dst
    → flip_move16 (move16 (make_drop k c dst)) ≡ move16 (make_drop k d (80 - dst))
flip-make_drop k c d dst hd =
    let bounds = ref_kind-lt k in
    let m : ℕ = dst + ref_kind k * 2 ^ 7 + 1 * 2 ^ 14 in
    let fragment : move16 (make_drop k c dst) ≡ m =
      omega (arith, move16_lem (make_drop k c dst), make_drop-eq_sum k c dst hd) in
    let drops : is_drop m ≡ true = is_drop_lem m ∙ ground arith in
    rw fragment (
      omega (
        arith,
        flip-drop m drops,
        move16_lem (make_drop k d (80 - dst)),
        make_drop-eq_sum k d (80 - dst) (turned-IsSquare dst hd),
      ))

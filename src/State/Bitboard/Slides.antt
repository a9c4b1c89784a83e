-- ===== src/State/Bitboard/Slides.antt =====
-- A slide of a ray of crates/attic-state/src/bitboard.rs cuts its line, toward higher squares as it is
-- and toward lower ones between two byte reversals.
use attic_shogi.Prelude.{ℕ, ◌<◌, ◌≡◌, ◌∙◌, ap, sym, true, false, arith}
use attic_shogi.State.Square.{Square, IsSquare}
use attic_shogi.State.Bitboard.{Bitboard}
use attic_shogi.State.Bitboard.Laws.{member}
use attic_shogi.State.Bitboard.Rays.{ray}
use attic_shogi.State.Bitboard.Sliders.{byte_reverse}
use attic_shogi.State.Bitboard.Slide.{bit128, slide, slide-open, slide-shut, slide-mask, IsWords}
use attic_shogi.State.Bitboard.Reverse.{
  reversed, reversed-reversed, bit128-byte_reverse, byte_reverse-IsWords,
}
use attic_shogi.State.Bitboard.Walk.{line, is_in, is_in-IsSquare, member-ray}
use attic_shogi.State.Bitboard.Cuts.{Cuts}
use attic_shogi.State.Bitboard.Lines.{
  bit_index, reversed_index, member-eq_bit128, square_of_bit, ray-IsCanonical, ray-IsWords,
}

-- Whether a square is on the ray, by its bit.
on_ray :
    (d : ℕ) (s t : Square)
    → IsSquare t
    → is_in t (line d s) ≡ true
    → bit128 (ray d s) (bit_index t) ≡ 1
on_ray d s t h e = sym (member-eq_bit128 (ray d s) t) ∙ member-ray d s t h ∙ rw e

off_ray :
    (d : ℕ) (s t : Square)
    → IsSquare t
    → is_in t (line d s) ≡ false
    → bit128 (ray d s) (bit_index t) ≡ 0
off_ray d s t h e = sym (member-eq_bit128 (ray d s) t) ∙ member-ray d s t h ∙ rw e

line_square :
    (d : ℕ) (s u : Square) → IsSquare u → member (ray d s) u ≡ 1 → is_in u (line d s) ≡ true
line_square d s u h e = ground (arith, member-ray d s u h)

-- A slide of a ray cuts its line in the order of the bits.
pub slide-Cuts :
    (d : ℕ) (s : Square) (occ : Bitboard)
    → Cuts bit_index occ (line d s) (member (slide occ (ray d s)))
slide-Cuts d s occ = record {
  open_ = λ t h e free.
      member-eq_bit128 (slide occ (ray d s)) t
      ∙ slide-open occ (ray d s) (ray-IsWords d s) (bit_index t) (ground arith) (λ q l m.
        let (u, hu, back, mu) = square_of_bit (ray d s) q (ray-IsCanonical d s) m in
        ap (bit128 occ) (sym back)
        ∙ sym (member-eq_bit128 occ u)
        ∙ free u (line_square d s u hu mu) (omega arith))
      ∙ on_ray d s t h e;
  shut = λ t u h e l o.
      member-eq_bit128 (slide occ (ray d s)) t
      ∙ slide-shut occ (ray d s) (ray-IsWords d s) (bit_index t) (ground arith) (bit_index u) l
          (on_ray d s u (is_in-IsSquare d s u e) e) (sym (member-eq_bit128 occ u) ∙ o);
  off = λ t h e.
      member-eq_bit128 (slide occ (ray d s)) t
      ∙ slide-mask occ (ray d s) (ray-IsWords d s) (bit_index t) (ground arith) (off_ray d s t h e);
}

-- A slide between two byte reversals.
abbrev pub slide_back : Bitboard → Bitboard → Bitboard
slide_back occ m = byte_reverse (slide (byte_reverse occ) (byte_reverse m))

bit128-there :
    (a : Bitboard) (t : Square)
    → IsSquare t
    → bit128 (byte_reverse a) (reversed_index t) ≡ bit128 a (bit_index t)
bit128-there a t h =
    let small : bit_index t < 128 = ground arith in
    bit128-byte_reverse a (reversed_index t) (omega arith)
    ∙ ap (bit128 a) (reversed-reversed (bit_index t) small)

pub slide_back-Cuts :
    (d : ℕ) (s : Square) (occ : Bitboard)
    → Cuts reversed_index occ (line d s) (member (slide_back occ (ray d s)))
slide_back-Cuts d s occ = record {
  open_ = λ t h e free.
      at_square t h
      ∙ slide-open (byte_reverse occ) back words (reversed_index t) (in_range t) (λ q l m.
        let (u, hu, there, mu) =
          square_of_bit (ray d s) (reversed q) (ray-IsCanonical d s)
            (sym (bit128-byte_reverse (ray d s) q (omega (arith, in_range t))) ∙ m) in
        bit128-byte_reverse occ q (omega (arith, in_range t))
        ∙ ap (bit128 occ) (sym there)
        ∙ sym (member-eq_bit128 occ u)
        ∙ free u (line_square d s u hu mu) (omega (arith, in_range t, ap reversed there)))
      ∙ bit128-there (ray d s) t h
      ∙ on_ray d s t h e;
  shut = λ t u h e l o.
      let hu = is_in-IsSquare d s u e in
      at_square t h
      ∙ slide-shut (byte_reverse occ) back words (reversed_index t) (in_range t) (reversed_index u)
          l (bit128-there (ray d s) u hu ∙ on_ray d s u hu e)
          (bit128-there occ u hu ∙ sym (member-eq_bit128 occ u) ∙ o);
  off = λ t h e.
      at_square t h
      ∙ slide-mask (byte_reverse occ) back words (reversed_index t) (in_range t)
          (bit128-there (ray d s) t h ∙ off_ray d s t h e);
}
  where
    back : Bitboard
    back = byte_reverse (ray d s)

    words : IsWords (byte_reverse (ray d s))
    words = byte_reverse-IsWords (ray d s)

    in_range : (t : Square) → reversed_index t < 128
    in_range t = omega arith

    at_square :
        (t : Square)
        → IsSquare t
        → member (slide_back occ (ray d s)) t
          ≡ bit128 (slide (byte_reverse occ) (byte_reverse (ray d s))) (reversed_index t)
    at_square t h =
        member-eq_bit128 (slide_back occ (ray d s)) t
        ∙ bit128-byte_reverse (slide (byte_reverse occ) (byte_reverse (ray d s))) (bit_index t)
            (ground arith)

-- ===== src/State/Sfen/Spaces.antt =====
-- The fields of a printed position have no space, so that `split` finds them again.
use attic_shogi.Prelude.{
  ℕ, zero, suc, ◌+◌, ◌*◌, ◌/◌, ◌%◌, ◌≡◌, refl, false, ◌==◌, ltb, if◌then◌else◌, Bool-cases, inl,
  inr, Option-cases, List, [], ◌∷◌, ◌++◌, arith,
}
use attic_shogi.State.Piece.{Color, black, white, PieceKind, Piece, PerColor, at}
use attic_shogi.State.Hand.{Hand, count}
use attic_shogi.State.Board.{Board, get}
use attic_shogi.State.Sfen.Chars.{Text, piece_char, decimal, to_string, split}
use attic_shogi.State.Sfen.Printer.{
  flush, format_piece, format_files, format_ranks, format_board, format_held, format_hands, or_dash,
  hand_output_order,
}
use attic_shogi.State.Sfen.Rows.{piece_char-letter, flush-suc}

abbrev pub NoSpace : Text → Type 0
NoSpace [] = Unit
NoSpace (c ∷ t) = ((c == b' ') ≡ false) × NoSpace t

pub ++-NoSpace : (s t : Text) → NoSpace s → NoSpace t → NoSpace (s ++ t)
++-NoSpace [] t p q = q
++-NoSpace (c ∷ s) t (h, p) q = (h, ++-NoSpace s t p q)

split-some : (t : Text) → (field : Text) × (fields : List Text) × (split b' ' t ≡ field ∷ fields)
unfolding split
split-some [] = ([], [], refl)
split-some (c ∷ t) =
    let (field, fields, e) = split-some t in
    elim (Bool-cases (c == b' ')) [
      | inl f ↦ ([], field ∷ fields, rw (e, f) refl)
      | inr f ↦ (c ∷ field, fields, rw (e, f) refl)
    ]

-- A field without a space is the first of a text that goes on after a space, and the one of a text
-- that ends.
pub split-first : (s t : Text) → NoSpace s → split b' ' (s ++ (b' ' ∷ t)) ≡ s ∷ split b' ' t
unfolding split
split-first [] t p = let (field, fields, e) = split-some t in rw e refl
split-first (c ∷ s) t (h, p) = rw (split-first s t p, h) refl

pub split-last : (s : Text) → NoSpace s → split b' ' s ≡ s ∷ []
unfolding split
split-last [] p = refl
split-last (c ∷ s) (h, p) = rw (split-last s p, h) refl

flush-NoSpace : (e : ℕ) → NoSpace (flush e)
flush-NoSpace zero = unfold flush in tt
flush-NoSpace (suc e) = rw (flush-suc e) (ground arith, tt)

letter-NoSpace : (k : PieceKind) (c : Color) → (piece_char k c == b' ') ≡ false
letter-NoSpace k c = let letter = piece_char-letter k c in ground (arith, letter)

format_piece-NoSpace : (p : Piece) → NoSpace (format_piece p)
unfolding format_piece
format_piece-NoSpace p = elim (Bool-cases p.promoted) [
  | inl e ↦ rw e (refl, (letter-NoSpace p.kind p.color, tt))
  | inr e ↦ rw e (letter-NoSpace p.kind p.color, tt)
]

format_files-NoSpace : (b : Board) (r n e : ℕ) → NoSpace (format_files b r n e)
unfolding format_files
format_files-NoSpace b r zero e = flush-NoSpace e
format_files-NoSpace b r (suc f) e = elim (Option-cases (get b (f * 9 + r))) [
  | inl free ↦ rw (format_files, free) (format_files-NoSpace b r f (e + 1))
  | inr (p, held) ↦
      rw (format_files, held)
        (++-NoSpace (flush e) (format_piece p ++ format_files b r f 0) (flush-NoSpace e) (
          ++-NoSpace (format_piece p) (format_files b r f 0) (format_piece-NoSpace p)
            (format_files-NoSpace b r f 0)))
]

format_ranks-NoSpace : (b : Board) (r n : ℕ) → NoSpace (format_ranks b r n)
unfolding format_ranks
format_ranks-NoSpace b r zero = tt
format_ranks-NoSpace b r (suc n) =
    ++-NoSpace (if r == 0 then [] else b'/' ∷ []) (format_files b r 9 0 ++ format_ranks b (r + 1) n)
      slash
      (++-NoSpace (format_files b r 9 0) (format_ranks b (r + 1) n) (format_files-NoSpace b r 9 0)
        (format_ranks-NoSpace b (r + 1) n))
  where
    slash : NoSpace (if r == 0 then [] else b'/' ∷ [])
    slash = elim (Bool-cases (r == 0)) [ inl e ↦ rw e tt | inr e ↦ rw e (refl, tt) ]

pub format_board-NoSpace : (b : Board) → NoSpace (format_board b)
unfolding format_board
format_board-NoSpace b = format_ranks-NoSpace b 0 9

decimal-NoSpace : (f n : ℕ) → NoSpace (decimal f n)
unfolding decimal
decimal-NoSpace zero n = (ground arith, tt)
decimal-NoSpace (suc f) n = elim (Bool-cases (ltb n 10)) [
  | inl e ↦ rw e (ground arith, tt)
  | inr e ↦ rw e (
      ++-NoSpace (decimal f (n / 10)) ((b'0' + n % 10) ∷ []) (decimal-NoSpace f (n / 10))
        (ground arith, tt))
]

pub to_string-NoSpace : (n : ℕ) → NoSpace (to_string n)
unfolding to_string
to_string-NoSpace n = decimal-NoSpace 4 n

format_held-NoSpace : (h : Hand) (c : Color) (ks : List PieceKind) → NoSpace (format_held h c ks)
unfolding format_held
format_held-NoSpace h c [] = tt
format_held-NoSpace h c (k ∷ ks) = elim (Bool-cases (count h k == 0)) [
  | inl e ↦ rw e (format_held-NoSpace h c ks)
  | inr e ↦ rw e (
      ++-NoSpace (if count h k == 1 then [] else to_string (count h k))
        (piece_char k c ∷ format_held h c ks) number
        (letter-NoSpace k c, format_held-NoSpace h c ks))
]
  where
    number : NoSpace (if count h k == 1 then [] else to_string (count h k))
    number = elim (Bool-cases (count h k == 1)) [
      | inl e ↦ rw e tt
      | inr e ↦ rw e (to_string-NoSpace (count h k))
    ]

or_dash-NoSpace : (t : Text) → NoSpace t → NoSpace (or_dash t)
or_dash-NoSpace [] p = (refl, tt)
or_dash-NoSpace (c ∷ t) p = p

pub format_hands-NoSpace : (hands : PerColor Hand) → NoSpace (format_hands hands)
unfolding format_hands
format_hands-NoSpace hands =
    let text = λ (c : Color). format_held (at hands c) c hand_output_order in
    or_dash-NoSpace (text black ++ text white) (
      ++-NoSpace (text black) (text white)
        (format_held-NoSpace (at hands black) black hand_output_order)
        (format_held-NoSpace (at hands white) white hand_output_order))

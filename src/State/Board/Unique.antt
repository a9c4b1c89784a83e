-- ===== src/State/Board/Unique.antt =====
-- The sets of a board are a function of its squares, so a board is known by its squares alone: the
-- equality that board.rs gives `Board` compares only those.
use attic_shogi.Prelude.{
  ℕ, ◌<◌, ◌≡◌, refl, ◌∙◌, sym, ap, Bool, List, Option, none, length, get_or-replicate, arith,
  get_or_ext,
}
use attic_shogi.State.Piece.{Color, black, white, Piece, at}
use attic_shogi.State.Square.{square_count}
use attic_shogi.State.Bitboard.{Bitboard}
use attic_shogi.State.Bitboard
use attic_shogi.State.Bitboard.Laws.{member-empty, IsCanonical, eq_of_members}
use attic_shogi.State.Board.{Board, pattern_count, empty, pieces_pattern}
use attic_shogi.State.Board.Sets.{weight, Tracks}
use attic_shogi.State.Board.Laws.{IsBoard, any_piece, of_color, of_pattern}

empty-IsCanonical : IsCanonical Bitboard.empty
empty-IsCanonical = record { lane0 = omega arith; lane1 = omega arith }

empty-Tracks : (test : Piece → Bool) → Tracks empty.squares test Bitboard.empty
unfolding empty
empty-Tracks test = record {
  canonical = empty-IsCanonical;
  exact =
      λ s h. member-empty s ∙ sym (ap (weight test) (get_or-replicate square_count s none none h));
}

pub empty-IsBoard : IsBoard empty
empty-IsBoard = record {
  size = unfold empty in refl;
  slots = slots;
  occupied = unfold empty in empty-Tracks any_piece;
  by_color = by_color;
  by_pattern =
      λ c pattern p. rw (pattern_of_empty c pattern p) (empty-Tracks (of_pattern c pattern));
}
  where
    slots : (c : Color) → length (at empty.by_pattern c) ≡ pattern_count
    slots black = unfold empty in refl
    slots white = unfold empty in refl

    by_color : (c : Color) → Tracks empty.squares (of_color c) (at empty.by_color c)
    by_color black = unfold empty in empty-Tracks (of_color black)
    by_color white = unfold empty in empty-Tracks (of_color white)

    pattern_of_empty :
        (c : Color) (pattern : ℕ)
        → pattern < pattern_count
        → pieces_pattern empty c pattern ≡ Bitboard.empty
    pattern_of_empty black pattern p =
        unfold empty pieces_pattern in
        get_or-replicate pattern_count pattern Bitboard.empty Bitboard.empty p
    pattern_of_empty white pattern p =
        unfold empty pieces_pattern in
        get_or-replicate pattern_count pattern Bitboard.empty Bitboard.empty p

-- One set under two boards with the same squares.
Tracks-unique :
    {squares : List (Option Piece)} (test : Piece → Bool) {a b : Bitboard}
    → Tracks squares test a
    → Tracks squares test b
    → a ≡ b
Tracks-unique test ta tb =
    eq_of_members ta.canonical tb.canonical λ i h. ta.exact i h ∙ sym (tb.exact i h)

-- A list of sets of one colour.
patterns_unique :
    {a b : Board}
    → IsBoard a
    → IsBoard b
    → a.squares ≡ b.squares
    → (c : Color) → at a.by_pattern c ≡ at b.by_pattern c
unfolding pieces_pattern
patterns_unique {a} {b} va vb e c =
    get_or_ext Bitboard.empty _ _ (va.slots c ∙ sym (vb.slots c)) λ i p.
      let inside : i < pattern_count = rw (va.slots c) at p in
      Tracks-unique (of_pattern c i) (rw e at (va.by_pattern c i inside)) (vb.by_pattern c i inside)

-- Two boards with exact sets and the same squares are equal, sets included.
pub eq_of_squares : {a b : Board} → IsBoard a → IsBoard b → a.squares ≡ b.squares → a ≡ b
eq_of_squares {a} {b} va vb e = λ i. record {
  squares = e i;
  occupied = Tracks-unique any_piece (rw e at va.occupied) vb.occupied i;
  by_color = record { of_black = colors black i; of_white = colors white i };
  by_pattern = record {
    of_black = patterns_unique va vb e black i;
    of_white = patterns_unique va vb e white i;
  };
}
  where
    colors : (c : Color) → at a.by_color c ≡ at b.by_color c
    colors c = Tracks-unique (of_color c) (rw e at (va.by_color c)) (vb.by_color c)

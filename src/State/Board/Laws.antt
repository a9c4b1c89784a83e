-- ===== src/State/Board/Laws.antt =====
-- The sets of a board are exact after every change, and are a function of its squares.
use attic_shogi.Prelude.{
  ℕ, ◌<◌, ◌≡◌, ◌≢◌, refl, ◌∙◌, ap, Bool, true, List, Option, none, some, get_or, set, length,
  get_or-set_self, get_or-set_ne, length-set, ◌==◌, if◌then◌else◌, arith, ◌&&◌,
}
use attic_shogi.State.Piece.{
  Color, black, white, Piece, PerColor, at, set_at, same_color, eq_of_same_color, at-set_at,
}
use attic_shogi.State.Square.{Square, IsSquare, square_count}
use attic_shogi.State.Bitboard.{Bitboard, sym_diff, from_square}
use attic_shogi.State.Bitboard
use attic_shogi.State.Board.{
  Board, pattern_count, pattern_of, get, put, toggle_if_some, pieces_pattern,
}
use attic_shogi.State.Board.Sets.{Tracks, flip_at, put-Tracks}

abbrev pub any_piece : Piece → Bool
any_piece p = true

abbrev pub of_color : Color → Piece → Bool
of_color c p = same_color p.color c

abbrev pub of_pattern : Color → ℕ → Piece → Bool
of_pattern c pattern p = same_color p.color c && (pattern_of p == pattern)

-- 81 squares, and every set exact.
pub record IsBoard (b : Board) : Type 0 where
  pub size : length b.squares ≡ square_count
  pub slots : (c : Color) → length (at b.by_pattern c) ≡ pattern_count
  pub occupied : Tracks b.squares any_piece b.occupied
  pub by_color : (c : Color) → Tracks b.squares (of_color c) (at b.by_color c)
  pub by_pattern :
      (c : Color) (pattern : ℕ)
      → pattern < pattern_count
      → Tracks b.squares (of_pattern c pattern) (pieces_pattern b c pattern)

pattern_of-lt : (p : Piece) → pattern_of p < pattern_count
unfolding pattern_of
pattern_of-lt p = ground arith

-- `toggle_if_some`, set by set.
toggle-squares :
    (b : Board) (o : Option Piece) (s : Square) → (toggle_if_some b o s).squares ≡ b.squares
unfolding toggle_if_some
toggle-squares b none s = refl
toggle-squares b (some p) s = refl

toggle-occupied :
    (b : Board) (o : Option Piece) (s : Square)
    → (toggle_if_some b o s).occupied ≡ flip_at any_piece o s b.occupied
unfolding toggle_if_some
toggle-occupied b none s = refl
toggle-occupied b (some p) s = refl

toggle-by_color :
    (b : Board) (o : Option Piece) (s : Square) (c : Color)
    → at (toggle_if_some b o s).by_color c ≡ flip_at (of_color c) o s (at b.by_color c)
unfolding toggle_if_some
toggle-by_color b none s c = refl
toggle-by_color b (some p) s c = ground arith

at-set_of :
    {A : Type 0} (p : PerColor (List A)) (c d : Color) (i : ℕ) (v : A)
    → length (at (set_at p c (set (at p c) i v)) d) ≡ length (at p d)
at-set_of p black black i v = length-set p.of_black i v
at-set_of p black white i v = refl
at-set_of p white black i v = refl
at-set_of p white white i v = length-set p.of_white i v

toggle-slots :
    (b : Board) (o : Option Piece) (s : Square) (c : Color)
    → length (at (toggle_if_some b o s).by_pattern c) ≡ length (at b.by_pattern c)
unfolding toggle_if_some
toggle-slots b none s c = refl
toggle-slots b (some p) s c = at-set_of b.by_pattern p.color c _ _

-- A write of one slot of one colour, read at any colour and slot.
get_or-set_at :
    {A : Type 0} (p : PerColor (List A)) (c d : Color) (i j : ℕ) (v e : A)
    → i < length (at p c)
    → get_or (at (set_at p c (set (at p c) i v)) d) j e
      ≡ (if same_color c d && (i == j) then v else get_or (at p d) j e)
get_or-set_at p c d i j v e h =
    let w = set (at p c) i v in
    ground (
      arith,
      at-set_at p c d w,
      get_or-set_self (at p c) i v e,
      get_or-set_ne (at p c) i j v e,
      eq_of_same_color c d,
    )

toggle-by_pattern :
    (b : Board) (o : Option Piece) (s : Square) (c : Color) (pattern : ℕ)
    → ((d : Color) → length (at b.by_pattern d) ≡ pattern_count)
    → pieces_pattern (toggle_if_some b o s) c pattern
      ≡ flip_at (of_pattern c pattern) o s (pieces_pattern b c pattern)
unfolding toggle_if_some pieces_pattern
toggle-by_pattern b none s c pattern h = refl
toggle-by_pattern b (some p) s c pattern h =
    let here = get_or (at b.by_pattern p.color) (pattern_of p) Bitboard.empty in
    get_or-set_at b.by_pattern p.color c (pattern_of p) pattern (sym_diff here (from_square s))
      Bitboard.empty (rw (h p.color) (pattern_of-lt p))
    ∙ ground (arith, eq_of_same_color p.color c)

pub put-squares :
    (b : Board) (s : Square) (o : Option Piece) → (put b s o).squares ≡ set b.squares s o
unfolding put
put-squares b s o =
    toggle-squares _ o s
    ∙ ap (λ (l : List (Option Piece)). set l s o) (toggle-squares b (get b s) s)

-- A set after `put`, in terms of its squares.
put_tracked :
    (b : Board) (s : Square) (o : Option Piece) (test : Piece → Bool) (bits after : Bitboard)
    → IsSquare s
    → length b.squares ≡ square_count
    → Tracks b.squares test bits
    → after ≡ flip_at test o s (flip_at test (get b s) s bits)
    → Tracks (put b s o).squares test after
put_tracked b s o test bits after h size t e =
    rw (put-squares, e) (unfold get in put-Tracks b.squares test bits s o size h t)

-- `Board::set` on a square of the board keeps the set of occupied squares, those of the colours and
-- those of the patterns exact.
pub put-IsBoard :
    (b : Board) (s : Square) (o : Option Piece) → IsSquare s → IsBoard b → IsBoard (put b s o)
unfolding put pieces_pattern
put-IsBoard b s o h v =
    let b' = toggle_if_some b (get b s) s in
    let b'' : Board = record b' { squares = set b'.squares s o } in
    record {
      size = rw put-squares (length-set b.squares s o ∙ v.size);
      slots = λ c. toggle-slots b'' o s c ∙ toggle-slots b (get b s) s c ∙ v.slots c;
      occupied =
          put_tracked b s o any_piece b.occupied _ h v.size v.occupied
            (toggle-occupied b'' o s ∙ ap (flip_at any_piece o s) (toggle-occupied b (get b s) s));
      by_color = λ c. put_tracked b s o (of_color c) (at b.by_color c) _ h v.size (v.by_color c) (
          toggle-by_color b'' o s c
          ∙ ap (flip_at (of_color c) o s) (toggle-by_color b (get b s) s c));
      by_pattern = λ c pattern p.
          put_tracked b s o (of_pattern c pattern) (pieces_pattern b c pattern) _ h v.size
            (v.by_pattern c pattern p)
            (toggle-by_pattern b'' o s c pattern (λ d. toggle-slots b (get b s) s d ∙ v.slots d)
              ∙ ap (flip_at (of_pattern c pattern) o s)
                  (toggle-by_pattern b (get b s) s c pattern v.slots));
    }

pub get-put_self :
    (b : Board) (s : Square) (o : Option Piece) → IsSquare s → IsBoard b → get (put b s o) s ≡ o
unfolding get
get-put_self b s o h v = rw put-squares (get_or-set_self b.squares s o none (rw (v.size) h))

pub get-put_ne : (b : Board) (s t : Square) (o : Option Piece) → s ≢ t → get (put b s o) t ≡ get b t
unfolding get
get-put_ne b s t o n = rw put-squares (get_or-set_ne b.squares s t o none n)

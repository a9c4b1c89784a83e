-- ===== src/State/Key/Drawn.antt =====
-- Which draw of the generator of crates/attic-state/src/key.rs each piece has on each square.
use attic_shogi.Prelude.{
  ℕ, zero, suc, ◌+◌, ◌-◌, ◌*◌, ◌<◌, ◌≡◌, ◌≢◌, refl, ap, ◌∙◌, Bool, true, false, not, ◌||◌, ==_refl,
  leb, Option, none, some, replicate, arith,
}
use attic_shogi.State.Piece.{
  Color, black, white, color_index, PieceKind, kind_index, pawn, lance, knight, silver, gold,
  bishop, rook, king, Piece, new,
}
use attic_shogi.State.Square.{Square, IsSquare, square_count}
use attic_shogi.State.Bitboard.Lines.{all_below, all_below-lt}
use attic_shogi.State.Move.{piece_to_ref_code}
use attic_shogi.State.Move.Decode.{IsPiece}
use attic_shogi.State.Move.Fields.{ref_code-lt}
use attic_shogi.State.Key.{
  piece_codes, set_rand, ref_code_to_slot, draw_pieces, build, hand_step, draw_hands,
  ref_kind_to_index, piece_code, psq, side, no_pawns_seed,
}
use attic_shogi.State.Key.Slots.{ref_code_to_slot-piece_to_ref_code}
use attic_shogi.State.Key.Tables.{
  state_after, drawn, cell, blank-IsTable, hits, draw_pieces-cell, draw_pieces-state,
}

-- Whether a later code has the slot of an earlier one.
abbrev same_slot : Option ℕ → Option ℕ → Bool
same_slot none o = false
same_slot (some i) o = hits o i

slots_differ :
    all_below piece_codes (λ c.
      all_below piece_codes
        (λ d. leb d c || not (same_slot (ref_code_to_slot c) (ref_code_to_slot d))))
    ≡ true
unfolding all_below ref_code_to_slot
slots_differ = refl

later_code-misses :
    (c d i : ℕ)
    → c < d
    → d < piece_codes
    → ref_code_to_slot c ≡ some i
    → hits (ref_code_to_slot d) i ≡ false
later_code-misses c d i h l e =
    let known =
      all_below-lt piece_codes
        (λ d. leb d c || not (same_slot (ref_code_to_slot c) (ref_code_to_slot d))) d
        (all_below-lt piece_codes
          (λ c.
            all_below piece_codes
              (λ d. leb d c || not (same_slot (ref_code_to_slot c) (ref_code_to_slot d))))
          c slots_differ (omega arith))
        l in
    apart (hits (ref_code_to_slot d) i) (rw e at known)
  where
    apart : (b : Bool) → (leb d c || not b) ≡ true → b ≡ false
    apart b k = ground arith

build-psq :
    build.psq
    ≡ (draw_pieces 31 1 (state_after 2) (replicate piece_codes (replicate square_count 0))).1
unfolding build state_after
build-psq = refl

-- `side` is draw 0 of the generator and the seed of the pawn key draw 1, and the word that `psq` reads
-- for a piece that can stand on a board is, on square `s`, draw `2 + (c - 1) * 81 + s`, with `c` the
-- code of the piece in a packed move.
pub psq-drawn :
    (p : Piece) (s : Square)
    → IsPiece p
    → IsSquare s
    → (psq p s ≡ drawn (2 + (piece_to_ref_code p - 1) * square_count + s))
      × (side ≡ drawn 0)
      × (no_pawns_seed ≡ drawn 1)
unfolding psq side no_pawns_seed build drawn state_after
psq-drawn p s h hs =
    let bounds = ref_code-lt p in
    let slot = ref_code_to_slot-piece_to_ref_code p h in
    let code : 1 + (piece_to_ref_code p - 1) ≡ piece_to_ref_code p = omega (arith, bounds) in
    (
      ap (λ t. cell t (piece_code p) s) build-psq
          ∙ draw_pieces-cell 31 1 2 _ (piece_code p) s (piece_to_ref_code p - 1) blank-IsTable
              (omega (arith, bounds)) hs (rw (code, slot) (==_refl (piece_code p)))
              (λ d l m.
                later_code-misses (piece_to_ref_code p) d (piece_code p) (omega (arith, bounds))
                  (omega arith) slot),
      refl,
      refl,
    )

-- The state `m` draws on.
state_from : (m s : ℕ) → ℕ
state_from zero s = s
state_from (suc m) s = (set_rand (state_from m s)).0

state_from_lem : (m n : ℕ) → state_from m (state_after n) ≡ state_after (n + m)
unfolding state_from state_after
state_from_lem zero n = let none_left : n ≡ n + 0 = omega arith in ap state_after none_left
state_from_lem (suc m) n =
    let on : suc (n + m) ≡ n + suc m = omega arith in
    ap (λ s. (set_rand s).0) (state_from_lem m n) ∙ ap state_after on

draw_from : (m n : ℕ) → (set_rand (state_from m (state_after n))).1 ≡ drawn (n + m)
unfolding drawn
draw_from m n = ap (λ s. (set_rand s).1) (state_from_lem m n)

-- The number of a kind among the draws of a colour.
abbrev pub hand_place : Color → PieceKind → ℕ
hand_place c k = color_index c * 7 + (piece_to_ref_code (new k black) - 1)

hand_cell :
    (c : Color) (k : PieceKind) (n : ℕ)
    → k ≢ king
    → cell
        (draw_hands 2 0 (state_after n) (replicate 2 (replicate 8 0))).1
        (color_index c)
        (kind_index k)
      ≡ drawn (n + hand_place c k)
unfolding draw_hands ref_kind_to_index state_from piece_to_ref_code
hand_cell black pawn n h = draw_from 0 n
hand_cell black lance n h = draw_from 1 n
hand_cell black knight n h = draw_from 2 n
hand_cell black silver n h = draw_from 3 n
hand_cell black gold n h = draw_from 6 n
hand_cell black bishop n h = draw_from 4 n
hand_cell black rook n h = draw_from 5 n
hand_cell black king n h = absurd (h refl)
hand_cell white pawn n h = draw_from 7 n
hand_cell white lance n h = draw_from 8 n
hand_cell white knight n h = draw_from 9 n
hand_cell white silver n h = draw_from 10 n
hand_cell white gold n h = draw_from 13 n
hand_cell white bishop n h = draw_from 11 n
hand_cell white rook n h = draw_from 12 n
hand_cell white king n h = absurd (h refl)

build-hand :
    build.hand
    ≡ (draw_hands 2 0
        (draw_pieces 31 1 (state_after 2) (replicate piece_codes (replicate square_count 0))).0
        (replicate 2 (replicate 8 0))).1
unfolding build state_after
build-hand = refl

-- The step that `hand_step` reads for a kind but the king is a draw of its own, after those of the 31
-- codes on 81 squares: seven for black, then seven for white, in the order of the kinds' codes in a
-- packed move.
pub hand_step-drawn :
    (c : Color) (k : PieceKind)
    → k ≢ king
    → hand_step c k ≡ drawn (2 + 31 * square_count + hand_place c k)
unfolding hand_step
hand_step-drawn c k h =
    ap (λ t. cell t (color_index c) (kind_index k)) build-hand
    ∙ ap
        (λ s.
          cell (draw_hands 2 0 s (replicate 2 (replicate 8 0))).1 (color_index c) (kind_index k))
        (draw_pieces-state 31 1 2 (replicate piece_codes (replicate square_count 0)))
    ∙ hand_cell c k (2 + 31 * square_count) h

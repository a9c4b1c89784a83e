-- ===== src/State/Key.antt =====
-- Zobrist hashing, crates/attic-state/src/key.rs: the tables drawn from the reference's generator,
-- and the terms that a position's keys are made of.
pub mod Slots
pub mod Bounds
pub mod Tables
pub mod Drawn
use attic_shogi.Prelude.{
  ℕ, zero, suc, ◌+◌, ◌-◌, ◌*◌, ◌/◌, ◌%◌, ◌^◌, bit_xor, Bool, true, false, List, [], ◌∷◌, Option,
  none, some, ltb, leb, ◌==◌, if◌then◌else◌, get_or, set, replicate,
}
use attic_shogi.State.Piece.{
  Color, color_index, PieceKind, kind_index, pawn, lance, knight, silver, gold, bishop, rook, king,
  Piece,
}
use attic_shogi.State.Square.{Square, square_count}

abbrev pub word : ℕ
word = 2 ^ 64

abbrev pub ref_seed : ℕ
ref_seed = 20151225

abbrev pub ref_mult : ℕ
ref_mult = 2685821657736338717

abbrev pub piece_codes : ℕ
piece_codes = 32

-- One draw: the next state and the value.
unfoldable pub rand64 : ℕ → ℕ × ℕ
rand64 s =
    let x1 = bit_xor s (s / 2 ^ 12) in
    let x2 = bit_xor x1 (x1 * 2 ^ 25 % word) in
    let x3 = bit_xor x2 (x2 / 2 ^ 27) in (x3, x3 * ref_mult % word)

-- Four draws, of which the first value is kept.
unfoldable pub set_rand : ℕ → ℕ × ℕ
unfolding rand64
set_rand s =
    let (s1, v) = rand64 s in
    let (s2, v2) = rand64 s1 in let (s3, v3) = rand64 s2 in let (s4, v4) = rand64 s3 in (s4, v)

unfoldable pub ref_kind_to_index : ℕ → Option ℕ
ref_kind_to_index pt =
    get_or (none ∷ some 0 ∷ some 1 ∷ some 2 ∷ some 3 ∷ some 5 ∷ some 6 ∷ some 4 ∷ some 7 ∷ []) pt
      none

abbrev pub slot_of : ℕ → ℕ → Option ℕ → Option ℕ
slot_of promo color none = none
slot_of promo color (some kind) = some ((promo * 2 + color) * 8 + kind)

unfoldable pub ref_code_to_slot : ℕ → Option ℕ
unfolding ref_kind_to_index
ref_code_to_slot pc =
    if pc == 16
    then none
    else (let color = if leb pc 15 then 0 else 1 in
        let local = if leb pc 15 then pc else pc - 16 in
        if local == 15
        then none
        else (let promo = if leb local 8 then 0 else 1 in
            let ref_pt = if leb local 8 then local else local - 8 in
            slot_of promo color (ref_kind_to_index ref_pt)))

-- A two-dimensional table, and a write to it.
abbrev pub Table : Type 0
Table = List (List ℕ)

abbrev pub set_cell : Table → ℕ → ℕ → ℕ → Table
set_cell t i j v = set t i (set (get_or t i []) j v)

-- `if let Some(slot) = … { table[slot][j] = v }`.
abbrev pub store : Option ℕ → ℕ → ℕ → Table → Table
store none j v t = t
store (some slot) j v t = set_cell t slot j v

-- The loop over the squares of one piece code, with `left` squares to go.
unfoldable pub draw_squares : (left sq pc : ℕ) → ℕ → Table → ℕ × Table
unfolding set_rand ref_code_to_slot
draw_squares zero sq pc s psq = (s, psq)
draw_squares (suc left) sq pc s psq =
    let (s', v) = set_rand s in
    draw_squares left (sq + 1) pc s' (store (ref_code_to_slot pc) sq v psq)

-- The loop over the piece codes.
unfoldable pub draw_pieces : (left pc : ℕ) → ℕ → Table → ℕ × Table
unfolding draw_squares
draw_pieces zero pc s psq = (s, psq)
draw_pieces (suc left) pc s psq =
    let (s', psq') = draw_squares square_count 0 pc s psq in draw_pieces left (pc + 1) s' psq'

-- `hand[c][kind] = v`.
abbrev pub store_hand : ℕ → Option ℕ → ℕ → Table → Table
store_hand c none v t = t
store_hand c (some kind) v t = set_cell t c kind v

-- The loops over the hand kinds of one colour, and over the colours.
unfoldable pub draw_hand : (left pr c : ℕ) → ℕ → Table → ℕ × Table
unfolding set_rand ref_kind_to_index
draw_hand zero pr c s hand = (s, hand)
draw_hand (suc left) pr c s hand =
    let (s', v) = set_rand s in
    draw_hand left (pr + 1) c s' (store_hand c (ref_kind_to_index pr) v hand)

unfoldable pub draw_hands : (left c : ℕ) → ℕ → Table → ℕ × Table
unfolding draw_hand
draw_hands zero c s hand = (s, hand)
draw_hands (suc left) c s hand =
    let (s', hand') = draw_hand 7 1 c s hand in draw_hands left (c + 1) s' hand'

pub record Zobrist : Type 0 where
  pub psq : Table
  pub hand : Table
  pub side : ℕ
  pub no_pawns : ℕ

unfoldable pub build : Zobrist
build =
    let (s1, side) = set_rand ref_seed in
    let (s2, no_pawns) = set_rand s1 in
    let (s3, psq) = draw_pieces 31 1 s2 (replicate piece_codes (replicate square_count 0)) in
    let (s4, hand) = draw_hands 2 0 s3 (replicate 2 (replicate 8 0)) in
    record { psq = psq; hand = hand; side = side; no_pawns = no_pawns }

unfoldable pub piece_code : Piece → ℕ
piece_code p =
    let promo = if p.promoted then 1 else 0 in
    (promo * 2 + color_index p.color) * 8 + kind_index p.kind

unfoldable pub psq : Piece → Square → ℕ
unfolding build piece_code
psq p s = get_or (get_or build.psq (piece_code p) []) s 0

unfoldable pub hand_step : Color → PieceKind → ℕ
unfolding build
hand_step c k = get_or (get_or build.hand (color_index c) []) (kind_index k) 0

unfoldable pub side : ℕ
unfolding build
side = build.side

unfoldable pub no_pawns_seed : ℕ
unfolding build
no_pawns_seed = build.no_pawns

-- `is_minor_piece`: lance, knight, silver, gold, or a promoted pawn, lance, knight or silver.
abbrev pub minor_kind : PieceKind → Bool → Bool
minor_kind pawn promoted = promoted
minor_kind lance _ = true
minor_kind knight _ = true
minor_kind silver _ = true
minor_kind gold true = false
minor_kind gold false = true
minor_kind _ _ = false

unfoldable pub is_minor_piece : Piece → Bool
is_minor_piece p = minor_kind p.kind p.promoted

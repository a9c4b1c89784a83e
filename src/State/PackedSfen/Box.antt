-- ===== src/State/PackedSfen/Box.antt =====
-- What the board and the hands take from the piece box, the counters `box_count` of
-- crates/attic-state/src/packed_sfen.rs.
use attic_shogi.Prelude.{
  ℕ, suc, zero, ◌+◌, ◌-◌, ◌<◌, ◌≡◌, refl, ◌∙◌, Bool, false, ◌==◌, if◌then◌else◌, List, [], ◌∷◌,
  Option, none, some, get_or, length, length-set, get_or-set_self, get_or-set_ne, ℕ_discrete, arith,
}
use attic_shogi.State.Piece.{
  Color, PieceKind, pawn, lance, knight, silver, gold, bishop, rook, king, kind_index, Piece,
}
use attic_shogi.State.Square.{Square}
use attic_shogi.State.Hand.{Hand, count}
use attic_shogi.State.Board.{Board, get}
use attic_shogi.State.PackedSfen.{take_from, hand_order}
use attic_shogi.State.PackedSfen.Stream.{taken, board_taken, IsDroppable}
use attic_shogi.State.PackedSfen.Whole.{hand_taken, Droppables, order_Droppables}
use attic_shogi.State.PackedSfen.Cost.{tally, ones}

-- What is left of a kind after `n` of another or the same are taken.
left-take_from :
    (xs : List ℕ) (j k : PieceKind) (n : ℕ)
    → length xs ≡ 7
    → IsDroppable j
    → get_or (take_from xs j n) (kind_index k) 0
      ≡ get_or xs (kind_index k) 0 - (if kind_index j == kind_index k then n else 0)
unfolding take_from
left-take_from xs j k n e d = elim (ℕ_discrete (kind_index j) (kind_index k)) [
  | yes same ↦
      rw
        (
          ← same,
          get_or-set_self xs (kind_index j) (get_or xs (kind_index j) 0 - n) 0
              (omega (arith, droppable_index j d)),
        )
        (ground arith)
  | no other ↦
      rw (get_or-set_ne xs (kind_index j) (kind_index k) (get_or xs (kind_index j) 0 - n) 0 other)
        (ground arith)
]
  where
    droppable_index : (k : PieceKind) → IsDroppable k → kind_index k < 7
    droppable_index pawn d = omega arith
    droppable_index lance d = omega arith
    droppable_index knight d = omega arith
    droppable_index silver d = omega arith
    droppable_index gold d = omega arith
    droppable_index bishop d = omega arith
    droppable_index rook d = omega arith
    droppable_index king d = absurd d

length-take_from : (xs : List ℕ) (j : PieceKind) (n : ℕ) → length (take_from xs j n) ≡ length xs
unfolding take_from
length-take_from xs j n = length-set xs (kind_index j) (get_or xs (kind_index j) 0 - n)

-- What a square takes: the piece that it holds, unless it is a king.
pub record Takes (xs ys : List ℕ) (n : PieceKind → ℕ) : Type 0 where
  pub whole : length ys ≡ 7
  pub rest :
      (k : PieceKind)
      → IsDroppable k
      → get_or ys (kind_index k) 0 ≡ get_or xs (kind_index k) 0 - n k

taken-Takes : (o : Option Piece) (xs : List ℕ) → length xs ≡ 7 → Takes xs (taken o xs) (ones o)
taken-Takes none xs e = record { whole = e; rest = λ k d. omega arith }
taken-Takes (some p) xs e = by_kind p.kind p.color p.promoted
  where
    takes :
        (j : PieceKind) (c : Color) (b : Bool)
        → IsDroppable j
        → Takes xs (take_from xs j 1) (ones (some (record { kind = j; color = c; promoted = b })))
    takes j c b d = record {
      whole = length-take_from xs j 1 ∙ e;
      rest = λ k _. left-take_from xs j k 1 e d;
    }

    no_king : (k : PieceKind) → IsDroppable k → (7 == kind_index k) ≡ false
    no_king pawn d = refl
    no_king lance d = refl
    no_king knight d = refl
    no_king silver d = refl
    no_king gold d = refl
    no_king bishop d = refl
    no_king rook d = refl
    no_king king d = absurd d

    by_kind :
        (j : PieceKind) (c : Color) (b : Bool)
        → Takes xs
            (taken (some (record { kind = j; color = c; promoted = b })) xs)
            (ones (some (record { kind = j; color = c; promoted = b })))
    by_kind pawn c b = takes pawn c b tt
    by_kind lance c b = takes lance c b tt
    by_kind knight c b = takes knight c b tt
    by_kind silver c b = takes silver c b tt
    by_kind gold c b = takes gold c b tt
    by_kind bishop c b = takes bishop c b tt
    by_kind rook c b = takes rook c b tt
    by_kind king c b = record { whole = e; rest = λ k d. rw (no_king k d) (omega arith) }

pub board_taken-Takes :
    (left : ℕ) (sq : Square) (b : Board) (xs : List ℕ)
    → length xs ≡ 7
    → Takes xs (board_taken left sq b xs) (λ k. tally k left sq b)
unfolding board_taken tally
board_taken-Takes zero sq b xs e = record { whole = e; rest = λ k d. omega arith }
board_taken-Takes (suc left) sq b xs e =
    let first = taken-Takes (get b sq) xs e in
    let others = board_taken-Takes left (suc sq) b (taken (get b sq) xs) first.whole in
    record { whole = others.whole; rest = λ k d. omega (arith, first.rest k d, others.rest k d) }

-- What a pass over the kinds of a list takes of one kind.
abbrev pub passed : List PieceKind → Hand → PieceKind → ℕ
passed [] h k = 0
passed (j ∷ ks) h k = (if kind_index j == kind_index k then count h j else 0) + passed ks h k

hand_taken-passed :
    (ks : List PieceKind) (h : Hand) (xs : List ℕ)
    → length xs ≡ 7
    → Droppables ks
    → Takes xs (hand_taken ks h xs) (passed ks h)
unfolding hand_taken
hand_taken-passed [] h xs e v = record { whole = e; rest = λ k d. omega arith }
hand_taken-passed (j ∷ ks) h xs e v =
    let others =
      hand_taken-passed ks h (take_from xs j (count h j)) (length-take_from xs j (count h j) ∙ e)
        v.1 in
    record {
      whole = others.whole;
      rest = λ k d. omega (arith, left-take_from xs j k (count h j) e v.0, others.rest k d);
    }

pub passed_order : (h : Hand) (k : PieceKind) → IsDroppable k → passed hand_order h k ≡ count h k
passed_order h pawn d = omega arith
passed_order h lance d = omega arith
passed_order h knight d = omega arith
passed_order h silver d = omega arith
passed_order h gold d = omega arith
passed_order h bishop d = omega arith
passed_order h rook d = omega arith
passed_order h king d = absurd d

pub hand_taken-Takes :
    (h : Hand) (xs : List ℕ) → length xs ≡ 7 → Takes xs (hand_taken hand_order h xs) (count h)
hand_taken-Takes h xs e =
    let t = hand_taken-passed hand_order h xs e order_Droppables in
    record { whole = t.whole; rest = λ k d. omega (arith, t.rest k d, passed_order h k d) }

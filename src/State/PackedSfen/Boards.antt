-- ===== src/State/PackedSfen/Boards.antt =====
-- Two boards whose kings stand on the same squares, as the head of a packed position tells,
-- crates/attic-state/src/packed_sfen.rs.
use attic_shogi.Prelude.{
  ◌≡◌, inl, inr, refl, sym, ◌∙◌, Bool, true, false, Option, none, some, Bool-cases, arith,
}
use attic_shogi.State.Piece.{
  Color, black, white, PieceKind, pawn, lance, knight, silver, gold, bishop, rook, king, Piece, at,
  same_color, eq_of_same_color, can_promote,
}
use attic_shogi.State.Piece
use attic_shogi.State.Square.{Square, IsSquare}
use attic_shogi.State.Board.{Board, get}
use attic_shogi.State.Sfen.Rows.{IsPiece}
use attic_shogi.State.Sfen.BoardRoundTrip.{HasPieces}
use attic_shogi.State.PackedSfen.{is_king_of, king_square}
use attic_shogi.State.PackedSfen.Stream.{IsDroppable}
use attic_shogi.State.PackedSfen.Reading.{IsPlain}
use attic_shogi.State.PackedSfen.Kings.{HasOneKing, king_square-holds, king_square_only}
use attic_shogi.State.PackedSfen.Squares.{Alike}

-- A king of a colour, which is not promoted.
lone_king :
    (c : Color) (o : Option Piece)
    → is_king_of c o ≡ true
    → ((p : Piece) → o ≡ some p → IsPiece p)
    → o ≡ some (Piece.new king c)
lone_king c none e h = cc
lone_king c (some p) e h = by_kind p.kind p.color p.promoted e (h p refl)
  where
    by_kind :
        (k : PieceKind) (d : Color) (b : Bool)
        → is_king_of c (some (record { kind = k; color = d; promoted = b })) ≡ true
        → (b ≡ true → can_promote k ≡ true)
        → ◌≡◌ {A = Option Piece}
            (some (record { kind = k; color = d; promoted = b }))
            (some (Piece.new king c))
    by_kind king d true e h = unfold can_promote in cc (h refl)
    by_kind king d false e h = ground (arith, eq_of_same_color d c)
    by_kind k d b e h = cc e

no_king-IsPlain :
    (o : Option Piece)
    → is_king_of black o ≡ false
    → is_king_of white o ≡ false
    → ((p : Piece) → o ≡ some p → IsPiece p)
    → IsPlain o
no_king-IsPlain none e e' h = tt
no_king-IsPlain (some p) e e' h = (by_kind p.kind p.color e e', h p refl)
  where
    by_kind :
        (k : PieceKind) (d : Color)
        → is_king_of black (some (record { kind = k; color = d; promoted = p.promoted })) ≡ false
        → is_king_of white (some (record { kind = k; color = d; promoted = p.promoted })) ≡ false
        → IsDroppable k
    by_kind king black e e' = cc e
    by_kind king white e e' = cc e'
    by_kind k d e e' = tt

-- Boards whose kings stand on the same squares hold the same kings there, and none elsewhere.
module _ (b b' : Board) (pieces : HasPieces b) (pieces' : HasPieces b')
    (one : (c : Color) → HasOneKing b c) (one' : (c : Color) → HasOneKing b' c)
    (kings : (c : Color) → king_square b c ≡ king_square b' c) where
  same_king :
      (c : Color) (s : Square)
      → IsSquare s
      → is_king_of c (get b s) ≡ true
      → is_king_of c (get b' s) ≡ true
  same_king c s h k =
      let there : king_square b' c ≡ s = sym (kings c) ∙ king_square_only b c s (one c) h k in
      rw there at (king_square-holds b' c (rw there h))

  same_king' :
      (c : Color) (s : Square)
      → IsSquare s
      → is_king_of c (get b' s) ≡ true
      → is_king_of c (get b s) ≡ true
  same_king' c s h k =
      let here : king_square b c ≡ s = kings c ∙ king_square_only b' c s (one' c) h k in
      rw here at (king_square-holds b c (rw here h))

  both_kings :
      (c : Color) (s : Square)
      → IsSquare s
      → is_king_of c (get b s) ≡ true
      → Alike (get b s) (get b' s)
  both_kings c s h k =
      let mine = lone_king c (get b s) k (pieces s) in
      let yours = lone_king c (get b' s) (same_king c s h k) (pieces' s) in
      inl (mine ∙ sym yours, rw mine refl, rw yours refl)

  pub boards-Alike : (s : Square) → IsSquare s → Alike (get b s) (get b' s)
  boards-Alike s h = elim (Bool-cases (is_king_of black (get b s))) [
    | inl k ↦ both_kings black s h k
    | inr n ↦ elim (Bool-cases (is_king_of white (get b s))) [
      | inl k ↦ both_kings white s h k
      | inr m ↦ inr (
        no_king-IsPlain (get b s) n m (pieces s),
        no_king-IsPlain (get b' s) (absent black n) (absent white m) (pieces' s),
      )
    ]
  ]
    where
      absent : (c : Color) → is_king_of c (get b s) ≡ false → is_king_of c (get b' s) ≡ false
      absent c n = elim (Bool-cases (is_king_of c (get b' s))) [
        | inl k ↦ let back = same_king' c s h k in cc
        | inr none_there ↦ none_there
      ]

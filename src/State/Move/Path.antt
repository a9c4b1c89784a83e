-- ===== src/State/Move/Path.antt =====
-- The squares and flags of a board move of any piece, also one whose kind cannot promote.
use attic_shogi.Prelude.{
  ℕ, ◌+◌, ◌*◌, ◌/◌, ◌%◌, ◌^◌, ◌<◌, ◌≡◌, ◌∙◌, ap, Bool, true, false, ◌==◌, some, arith, bit_or,
}
use attic_shogi.State.Piece.{Piece}
use attic_shogi.State.Square.{Square, IsSquare, from_index}
use attic_shogi.State.Move.{
  Move, make, make_promote, is_drop, is_promote, to_sq, from_sq, piece_to_ref_code, piece_promote,
}
use attic_shogi.State.Move.Fields.{
  make-eq_sum, make_promote-eq_sum, is_drop_lem, is_promote_lem, to_sq_lem, from_sq_lem,
}

pub record IsPath (m : Move) (src dst : Square) (promotes : Bool) : Type 0 where
  pub drop : is_drop m ≡ false
  pub promote : is_promote m ≡ promotes
  pub origin : from_sq m ≡ some src
  pub target : to_sq m ≡ some dst

from_index-IsSquare : (s : Square) → IsSquare s → from_index s ≡ some s
unfolding from_index
from_index-IsSquare s h = ground arith

IsPath-sum :
    (m src dst flag code : ℕ)
    → m ≡ dst + src * 2 ^ 7 + flag * 2 ^ 15 + code * 2 ^ 16
    → IsSquare src
    → IsSquare dst
    → flag < 2
    → IsPath m src dst (flag == 1)
IsPath-sum m src dst flag code e hs hd hf =
    let src' : m / 2 ^ 7 % 2 ^ 7 ≡ src = omega arith in
    let dst' : m % 2 ^ 7 ≡ dst = omega arith in
    record {
      drop = is_drop_lem m ∙ ground arith;
      promote = is_promote_lem m ∙ ground arith;
      origin = from_sq_lem m ∙ ap from_index src' ∙ from_index-IsSquare src hs;
      target = to_sq_lem m ∙ ap from_index dst' ∙ from_index-IsSquare dst hd;
    }

pub make-IsPath :
    (src dst : Square) (p : Piece)
    → IsSquare src
    → IsSquare dst
    → IsPath (make src dst p) src dst false
make-IsPath src dst p hs hd =
    IsPath-sum (make src dst p) src dst 0 (piece_to_ref_code p)
      (make-eq_sum src dst p hs hd ∙ omega arith) hs hd (omega arith)

pub make_promote-IsPath :
    (src dst : Square) (p : Piece)
    → IsSquare src
    → IsSquare dst
    → IsPath (make_promote src dst p) src dst true
make_promote-IsPath src dst p hs hd =
    IsPath-sum (make_promote src dst p) src dst 1 (bit_or (piece_to_ref_code p) piece_promote)
      (make_promote-eq_sum src dst p hs hd) hs hd (omega arith)

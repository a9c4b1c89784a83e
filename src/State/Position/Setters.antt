-- ===== src/State/Position/Setters.antt =====
-- The direct setters of position.rs: each leaves the keys stale until `refresh_keys`.
use attic_shogi.Prelude.{ℕ, ◌^◌, ◌<◌, refl, none}
use attic_shogi.State.Piece.{Color, at, set_at}
use attic_shogi.State.Hand.{Hand}
use attic_shogi.State.Hand.Laws.{IsHand}
use attic_shogi.State.Board.{Board}
use attic_shogi.State.Board.Laws.{IsBoard}
use attic_shogi.State.Position.Types.{CheckOps, Position}
use attic_shogi.State.Position.Valid.{IsPosition}
use attic_shogi.State.Position.Hash.{IsExact, refresh_keys}
use attic_shogi.State.Position.HandSum.{recomputed_hand_key-lt}

module _ {Info : Type 0} where
  -- `board_mut`: a change through the guard, whose drop recomputes the check cache.
  unfoldable pub board_mut : CheckOps Info → (Board → Board) → Position Info → Position Info
  board_mut ops change pos =
      let changed : Position Info = record pos { board = change pos.board } in
      record changed {
        check_info = ops.compute changed.board changed.side_to_move changed.board_key none none;
      }

  -- `hand_mut`.
  unfoldable pub hand_mut : Color → (Hand → Hand) → Position Info → Position Info
  hand_mut c change pos = record pos { hands = set_at pos.hands c (change (at pos.hands c)) }

  unfoldable pub set_side_to_move : CheckOps Info → Color → Position Info → Position Info
  set_side_to_move ops c pos =
      let turned : Position Info = record pos { side_to_move = c } in
      record turned {
        check_info = ops.compute turned.board turned.side_to_move turned.board_key none none;
      }

  unfoldable pub set_ply : ℕ → Position Info → Position Info
  set_ply n pos = record pos { ply = n }

  -- `refresh_keys` makes a position valid and its keys exact, given a board with exact sets, hands
  -- within their caps and a 16-bit ply, however stale the keys were.
  pub refresh_keys-IsPosition :
      (ops : CheckOps Info) (pos : Position Info)
      → IsBoard pos.board
      → ((c : Color) → IsHand (at pos.hands c))
      → pos.ply < 2 ^ 16
      → IsPosition (refresh_keys ops pos) × IsExact (refresh_keys ops pos)
  unfolding refresh_keys
  refresh_keys-IsPosition ops pos b h p = (
    record { board = b; hands = h; ply = p; hand_key = recomputed_hand_key-lt pos.hands },
    record {
      board_key = refl;
      hand_key = refl;
      pawn_key = refl;
      minor_piece_key = refl;
      non_pawn_key = refl;
    },
  )

-- ===== src/State/Sfen/BoardField.antt =====
-- The board field keeps the position ready for its keys: the loop of `parse_board`.
use attic_shogi.Prelude.{
  ℕ, ◌+◌, ◌-◌, ◌%◌, ◌^◌, ◌≤◌, ◌<◌, ◌≡◌, inl, inr, true, false, ◌==◌, ltb, leb, ◌&&◌, if◌then◌else◌,
  Bool-cases, some, [], ◌∷◌, arith, ◌||◌, not,
}
use attic_shogi.Prelude.Result.{ok, err}
use attic_shogi.State.Piece.{Color, black, white, Piece, at}
use attic_shogi.State.Hand.Laws.{IsHand, empty-IsHand}
use attic_shogi.State.Square
use attic_shogi.State.Square.{Square, IsSquare, ranks, new-IsSquare}
use attic_shogi.State.Board.{put}
use attic_shogi.State.Board.Laws.{IsBoard, put-IsBoard}
use attic_shogi.State.Board.Unique.{empty-IsBoard}
use attic_shogi.State.Position.Types.{CheckOps, Position}
use attic_shogi.State.Position.Setters.{board_mut}
use attic_shogi.State.Sfen.Chars.{Text, sfen, unexpected_promote_marker}
use attic_shogi.State.Sfen.Parser.{
  Cursor, empty_position, next_rank, skip_files, square_here, place_piece, board_char, board_chars,
  end_of_board, parse_board,
}
use attic_shogi.State.Sfen.Outcome.{
  Outcome, returned, failed, Outcome->>=, parse_piece_char-Outcome, piece_of-Outcome,
}

module _ {Info : Type 0} where
  -- What every step keeps of the position, whose keys are stale.
  pub record IsReady (pos : Position Info) : Type 0 where
    pub board : IsBoard pos.board
    pub hands : (c : Color) → IsHand (at pos.hands c)
    pub ply : pos.ply < 2 ^ 16

  pub record IsCursor (k : Cursor Info) : Type 0 where
    pub ready : IsReady k.pos
    pub left_le : k.left ≤ 9
    pub rank_lt : k.rank < 9

  pub empty_position-IsReady : (ops : CheckOps Info) → IsReady (empty_position ops)
  empty_position-IsReady ops = record { board = empty-IsBoard; hands = held; ply = omega arith }
    where
      held : (c : Color) → IsHand (at (empty_position ops).hands c)
      held black = empty-IsHand
      held white = empty-IsHand

  next_rank-Outcome : (k : Cursor Info) → IsCursor k → Outcome IsCursor (next_rank k)
  unfolding next_rank
  next_rank-Outcome k h = elim (Bool-cases (k.left == 0)) [
    | inr e ↦ rw e (failed _)
    | inl e ↦ rw e (elim (Bool-cases (k.rank == 8)) [
      | inl last ↦ rw last (failed _)
      | inr last ↦ rw last (elim (Bool-cases k.promote) [
        | inl f ↦ rw f (failed _)
        | inr f ↦ rw f (returned _ (next last f))
      ])
    ])
  ]
    where
      next :
          (k.rank == 8) ≡ false
          → k.promote ≡ false
          → IsCursor (record { pos = k.pos; left = 9; rank = k.rank + 1; promote = false })
      next last f = record { ready = h.ready; left_le = omega arith; rank_lt = ground arith }

  skip_files-Outcome :
      (skip : ℕ) (k : Cursor Info) → IsCursor k → Outcome IsCursor (skip_files skip k)
  unfolding skip_files
  skip_files-Outcome skip k h = elim (Bool-cases k.promote) [
    | inl f ↦ rw f (failed _)
    | inr f ↦ rw f (elim (Bool-cases (ltb k.left skip)) [
      | inl e ↦ rw e (failed _)
      | inr e ↦ rw e (returned _ skipped)
    ])
  ]
    where
      skipped :
          IsCursor (record { pos = k.pos; left = k.left - skip; rank = k.rank; promote = false })
      skipped = record { ready = h.ready; left_le = omega (arith, h.left_le); rank_lt = h.rank_lt }

  board_mut-IsReady :
      (ops : CheckOps Info) (pos : Position Info) (s : Square) (p : Piece)
      → IsSquare s
      → IsReady pos
      → IsReady (board_mut ops (λ b. put b s (some p)) pos)
  unfolding board_mut
  board_mut-IsReady ops pos s p hs h = record {
    board = put-IsBoard pos.board s (some p) hs h.board;
    hands = h.hands;
    ply = h.ply;
  }

  -- The `unwrap` on the square of the cursor, past the guard.
  square_here-Outcome :
      (k : Cursor Info)
      → IsCursor k
      → (k.left == 0 || leb ranks k.rank) ≡ false
      → Outcome IsSquare (square_here k)
  unfolding square_here Square.new
  square_here-Outcome k h e =
      let inside : (ltb ((k.left + 2 ^ 8 - 1) % 2 ^ 8) 9 && ltb k.rank 9) ≡ true =
        ground (arith, h.left_le, h.rank_lt) in
      rw (square_here, inside) (returned _ (ground (arith, h.left_le, h.rank_lt)))

  place_piece-Outcome :
      (ops : CheckOps Info) (ch : ℕ) (k : Cursor Info)
      → IsCursor k
      → Outcome IsCursor (place_piece ops ch k)
  unfolding place_piece
  place_piece-Outcome ops ch k h = Outcome->>= (parse_piece_char-Outcome ch) λ named u.
      elim (Bool-cases (k.left == 0 || leb ranks k.rank)) [
        | inl e ↦ rw e (failed _)
        | inr inside ↦ rw inside (
            Outcome->>= (piece_of-Outcome ch k.promote (named.0) (named.1)) λ p u'.
              Outcome->>= (square_here-Outcome k h inside) λ s hs. returned _ (placed s p hs))
      ]
    where
      placed :
          (s : Square) (p : Piece)
          → IsSquare s
          → IsCursor (record {
            pos = board_mut ops (λ b. put b s (some p)) k.pos;
            left = k.left - 1;
            rank = k.rank;
            promote = false;
          })
      placed s p hs = record {
        ready = board_mut-IsReady ops k.pos s p hs h.ready;
        left_le = omega (arith, h.left_le);
        rank_lt = h.rank_lt;
      }

  board_char-Outcome :
      (ops : CheckOps Info) (ch : ℕ) (k : Cursor Info)
      → IsCursor k
      → Outcome IsCursor (board_char ops ch k)
  unfolding board_char
  board_char-Outcome ops ch k h = elim (Bool-cases (ch == b'/')) [
    | inl e ↦ rw e (next_rank-Outcome k h)
    | inr e ↦ rw e (elim (Bool-cases (ch == b'+')) [
      | inl f ↦ rw f (mark k h)
      | inr f ↦ rw f (elim (Bool-cases (leb b'1' ch && leb ch b'9')) [
        | inl g ↦ rw g (skip_files-Outcome (ch - b'0') k h)
        | inr g ↦ rw g (place_piece-Outcome ops ch k h)
      ])
    ])
  ]
    where
      marked :
          (k : Cursor Info)
          → IsCursor k
          → IsCursor (record { pos = k.pos; left = k.left; rank = k.rank; promote = true })
      marked k h = record { ready = h.ready; left_le = h.left_le; rank_lt = h.rank_lt }

      mark :
          (k : Cursor Info)
          → IsCursor k
          → Outcome IsCursor (
              if k.promote
              then err (sfen unexpected_promote_marker)
              else ok (record k { promote = true }))
      mark k h = elim (Bool-cases k.promote) [
        | inl e ↦ rw e (failed _)
        | inr e ↦ rw e (returned _ (marked k h))
      ]

  board_chars-Outcome :
      (ops : CheckOps Info) (t : Text) (k : Cursor Info)
      → IsCursor k
      → Outcome IsCursor (board_chars ops t k)
  unfolding board_chars
  board_chars-Outcome ops [] k h = returned k h
  board_chars-Outcome ops (ch ∷ t) k h =
      Outcome->>= (board_char-Outcome ops ch k h) (board_chars-Outcome ops t)

  pub parse_board-Outcome :
      (ops : CheckOps Info) (t : Text) (pos : Position Info)
      → IsReady pos
      → Outcome IsReady (parse_board ops t pos)
  unfolding parse_board end_of_board
  parse_board-Outcome ops t pos h =
      Outcome->>=
        (board_chars-Outcome ops t _
          (record { ready = h; left_le = omega arith; rank_lt = omega arith }))
        λ k h'. elim (Bool-cases k.promote) [
          | inl e ↦ rw e (failed _)
          | inr e ↦ rw e (elim (Bool-cases (not (k.rank == 8) || not (k.left == 0))) [
            | inl f ↦ rw f (failed _)
            | inr f ↦ rw f (returned _ h'.ready)
          ])
        ]

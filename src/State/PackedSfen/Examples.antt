-- ===== src/State/PackedSfen/Examples.antt =====
-- Packed positions: a vector of the program's own tests, and a board with two kings.
use attic_shogi.Prelude.{
  ℕ, zero, suc, ◌^◌, ◌≤◌, ◌+◌, ◌<◌, ◌≡◌, refl, sym, ◌∙◌, true, false, [], ◌∷◌, Option, none, some,
  length, replicate, get_or, ℕ_discrete, arith,
}
use attic_shogi.Prelude.Result.{ok, err}
use attic_shogi.State.Piece.{Color, black, white, king, new, at}
use attic_shogi.State.Hand
use attic_shogi.State.Hand.{increment}
use attic_shogi.State.Board
use attic_shogi.State.Board.{Board, put}
use attic_shogi.State.Position.Types.{Position}
use attic_shogi.State.Sfen.Chars.{Text, codes}
use attic_shogi.State.Sfen.Parser.{parse_sfen, empty_position}
use attic_shogi.State.Position.Types.{CheckOps}
use attic_shogi.State.Bitboard
use attic_shogi.State.PackedSfen.{
  BitWriter, PackedSfen, sfen_pack, pack_writer, pack_head, pack_board, pack_hand, pack_box,
  king_square,
}
use attic_shogi.State.Piece.{PieceKind, Piece, kind_index}
use attic_shogi.State.Board.{get}
use attic_shogi.State.Hand.{count}
use attic_shogi.State.Board.Laws.{IsBoard, put-IsBoard, get-put_self, get-put_ne}
use attic_shogi.State.Board.Unique.{empty-IsBoard}
use attic_shogi.State.Hand.Laws.{IsHand, empty-IsHand}
use attic_shogi.State.Position.Hash.{refresh_keys}
use attic_shogi.State.Position.Valid.{IsPosition}
use attic_shogi.State.Position.Setters.{refresh_keys-IsPosition}
use attic_shogi.State.Sfen.BoardRoundTrip.{empty-HasPieces, put-HasPieces}
use attic_shogi.State.PackedSfen.{piece_box_start, is_king_of}
use attic_shogi.State.PackedSfen.Stream.{IsDroppable}
use attic_shogi.State.PackedSfen.Whole.{stream}
use attic_shogi.State.PackedSfen.Cost.{tally}
use attic_shogi.State.PackedSfen.Bytes.{bit_of, buffer_bit, sfen_pack-bits}
use attic_shogi.State.PackedSfen.Length.{IsComplete, pack_writer-fills}
use attic_shogi.State.PackedSfen.Kings.{HasOneKing}
use attic_shogi.State.PackedSfen.Exact.{IsPackable, SameSetup, sfen_pack-injective}

-- A check cache that says nothing.
abbrev silent : CheckOps ℕ
silent = record {
  empty_info = 0;
  compute = λ b c key check checkers. 0;
  child_checkers = λ b m c info. Bitboard.empty;
  gives_check = λ info c m. false;
}

abbrev packed : Text → Option PackedSfen
packed t = elim (parse_sfen silent t) [ ok p ↦ sfen_pack p | err e ↦ none ]

-- `matches_reference_cshogi_vectors`, the last of its cases.
vector_test :
    packed (codes "lnsgk4/9/ppppppppp/9/9/9/PPPPPPPPP/9/LNSGK4 w GBRgbr 1")
    ≡ some (
        89 ∷ 36 ∷ 18 ∷ 1 ∷ 137 ∷ 128 ∷ 68 ∷ 64 ∷ 34 ∷ 144 ∷ 8 ∷ 175 ∷ 68 ∷ 120 ∷ 78 ∷ 137 ∷ 112
        ∷ 172 ∷ 18 ∷ 97 ∷ 25 ∷ 37 ∷ 194 ∷ 112 ∷ 30 ∷ 159 ∷ 251 ∷ 252 ∷ 166 ∷ 212 ∷ 218 ∷ 90 ∷ [])
unfolding parse_sfen sfen_pack pack_writer pack_head pack_board pack_hand pack_box king_square
    attic_shogi.State.Board.empty attic_shogi.State.Hand.increment attic_shogi.State.Board.put
vector_test = refl

-- The two kings on an empty board.
abbrev two_kings : Board
two_kings = put (put Board.empty 36 (some (new king white))) 44 (some (new king black))

two_kings-IsBoard : IsBoard two_kings
two_kings-IsBoard =
    put-IsBoard _ 44 (some (new king black)) (omega arith)
      (put-IsBoard Board.empty 36 (some (new king white)) (omega arith) empty-IsBoard)

abbrev setting : ℕ → Position ℕ
setting n = record (empty_position silent) { board = two_kings; ply = n }

-- The same set-up at two plies.
abbrev kings_at : ℕ → Position ℕ
kings_at n = refresh_keys silent (setting n)

kings_at-IsPosition : (n : ℕ) → n < 2 ^ 16 → IsPosition (kings_at n)
kings_at-IsPosition n h = (refresh_keys-IsPosition silent (setting n) two_kings-IsBoard hands h).0
  where
    hands : (c : Color) → IsHand (at (setting n).hands c)
    hands black = empty-IsHand
    hands white = empty-IsHand

get-empty : (s : ℕ) → get Board.empty s ≡ none
unfolding get Board.empty
get-empty s = free 81 s
  where
    free : (n s : ℕ) → ◌≡◌ {A = Option Piece} (get_or (replicate n none) s none) none
    free zero s = refl
    free (suc n) zero = refl
    free (suc n) (suc s) = free n s

-- The only square of each king.
king_of_two :
    (s : ℕ)
    → (is_king_of black (get two_kings s) ≡ true → s ≡ 44)
      × (is_king_of white (get two_kings s) ≡ true → s ≡ 36)
king_of_two s = elim (ℕ_discrete 44 s) [
  | yes there ↦
      let at_44 : get two_kings 44 ≡ some (new king black) =
        get-put_self _ 44 (some (new king black)) (omega arith)
          (put-IsBoard Board.empty 36 (some (new king white)) (omega arith) empty-IsBoard) in
      (λ k. sym there, rw (← there, at_44) (λ k. absurd (ground arith)))
  | no off ↦ rw (get-put_ne _ 44 s (some (new king black)) off) (elim (ℕ_discrete 36 s) [
    | yes there ↦
        let at_36 : get (put Board.empty 36 (some (new king white))) 36 ≡ some (new king white) =
          get-put_self Board.empty 36 (some (new king white)) (omega arith) empty-IsBoard in
        (rw (← there, at_36) (λ k. absurd (ground arith)), λ k. sym there)
    | no off' ↦
        rw (get-put_ne Board.empty 36 s (some (new king white)) off', get-empty s)
          (λ k. absurd (ground arith), λ k. absurd (ground arith))
  ])
]

kings_at-IsComplete : (n : ℕ) → IsComplete (kings_at n)
unfolding tally refresh_keys get put Board.empty count
kings_at-IsComplete n = record { kings = refl; within = within }
  where
    within :
        (k : PieceKind)
        → IsDroppable k
        → tally k 81 0 two_kings + count Hand.empty k + count Hand.empty k
          ≤ get_or piece_box_start (kind_index k) 0
    within king d = absurd d
    within k d = omega arith

kings_at-IsPackable : (n : ℕ) → n < 2 ^ 16 → IsPackable (kings_at n)
unfolding refresh_keys
kings_at-IsPackable n h = record {
  valid = kings_at-IsPosition n h;
  complete = kings_at-IsComplete n;
  pieces =
      put-HasPieces _ 44 (new king black) (omega arith)
        (put-IsBoard Board.empty 36 (some (new king white)) (omega arith) empty-IsBoard)
        (λ e. absurd (ground arith))
        (put-HasPieces Board.empty 36 (new king white) (omega arith) empty-IsBoard
          (λ e. absurd (ground arith)) empty-HasPieces);
  one_king = one_king;
}
  where
    one_king : (c : Color) → HasOneKing two_kings c
    one_king black s t hs ht p q = (king_of_two s).0 p ∙ sym ((king_of_two t).0 q)
    one_king white s t hs ht p q = (king_of_two s).1 p ∙ sym ((king_of_two t).1 q)

sfen_pack-bits_example :
    (d : PackedSfen) × (sfen_pack (kings_at 7) ≡ some d)
    × (length d ≡ 32)
    × ((i : ℕ) → i < 256 → buffer_bit d i ≡ bit_of (get_or (stream (kings_at 7)) i false))
sfen_pack-bits_example = sfen_pack-bits (kings_at 7)

pack_writer-fills_example : (w : BitWriter) × (pack_writer (kings_at 7) ≡ some w) × (w.cursor ≡ 256)
pack_writer-fills_example = pack_writer-fills (kings_at 7) (kings_at-IsComplete 7)

same_pack : sfen_pack (kings_at 7) ≡ sfen_pack (kings_at 8)
unfolding refresh_keys sfen_pack pack_writer pack_head
same_pack = refl

sfen_pack-injective_example : SameSetup (kings_at 7) (kings_at 8)
sfen_pack-injective_example =
    sfen_pack-injective (kings_at 7) (kings_at 8) (kings_at-IsPackable 7 (omega arith))
      (kings_at-IsPackable 8 (omega arith)) same_pack

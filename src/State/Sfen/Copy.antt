-- ===== src/State/Sfen/Copy.antt =====
-- A board copied square by square into an empty one, in the order of its text.
use attic_shogi.Prelude.{
  ℕ, zero, suc, ◌+◌, ◌*◌, ◌≤◌, ◌<◌, ◌≡◌, ◌≢◌, refl, sym, ap, ◌∙◌, Bool, true, false, ◌==◌, ltb, leb,
  ◌&&◌, ◌||◌, if◌then◌else◌, Option, none, some, get_or, get_or_ext, get_or-replicate, arith,
  ℕ_discrete,
}
use native.Mathlib.Nat.{add-zero}
use attic_shogi.State.Piece.{Piece}
use attic_shogi.State.Square.{Square, IsSquare, file, rank}
use attic_shogi.State.Board
use attic_shogi.State.Board.{Board, get, put}
use attic_shogi.State.Board.Laws.{IsBoard, put-IsBoard, get-put_self, get-put_ne}
use attic_shogi.State.Board.Unique.{empty-IsBoard, eq_of_squares}
use attic_shogi.State.Position.Types.{CheckOps, Position}
use attic_shogi.State.Position.Setters.{board_mut}
use attic_shogi.State.Sfen.Rows.{placed}

module _ {Info : Type 0} (ops : CheckOps Info) (b : Board) where
  -- The position after the square of the board was copied.
  unfoldable pub copy_square : Square → Option Piece → Position Info → Position Info
  copy_square s none pos = pos
  copy_square s (some p) pos = placed ops s p pos

  -- After the files below `n` of a rank, from the highest down, and after `n` ranks.
  unfoldable pub copy_files : (r n : ℕ) → Position Info → Position Info
  copy_files r zero pos = pos
  copy_files r (suc f) pos = copy_files r f (copy_square (f * 9 + r) (get b (f * 9 + r)) pos)

  unfoldable pub copy_ranks : (r n : ℕ) → Position Info → Position Info
  copy_ranks r zero pos = pos
  copy_ranks r (suc n) pos = copy_ranks (r + 1) n (copy_files r 9 pos)

  -- The squares copied so far: whole ranks, and the higher files of the rank under way.
  abbrev copied : (r f : ℕ) → Square → Bool
  copied r f s = ltb (rank s) r || (rank s == r && leb f (file s))

  -- The board agrees on them, and the others are empty.
  pub record IsCopy (r f : ℕ) (pos : Position Info) : Type 0 where
    pub board_ok : IsBoard pos.board
    pub agrees :
        (s : Square) → IsSquare s → get pos.board s ≡ (if copied r f s then get b s else none)

  -- One square more.
  copied-same :
      (r f : ℕ)
      → r < 9
      → f < 9
      → (copied r f (f * 9 + r) ≡ true) × (copied r (suc f) (f * 9 + r) ≡ false)
  copied-same r f hr hf = (ground arith, ground arith)

  copied-ne : (r f s : ℕ) → r < 9 → s ≢ f * 9 + r → copied r f s ≡ copied r (suc f) s
  copied-ne r f s hr apart = ground arith

  copy_square-IsCopy :
      (r f : ℕ) (o : Option Piece) (pos : Position Info)
      → r < 9
      → f < 9
      → get b (f * 9 + r) ≡ o
      → IsCopy r (suc f) pos
      → IsCopy r f (copy_square (f * 9 + r) o pos)
  unfolding copy_square board_mut
  copy_square-IsCopy r f none pos hr hf e c = record {
    board_ok = c.board_ok;
    agrees = λ s hs. elim (ℕ_discrete s (f * 9 + r)) [
      | yes same ↦
          rw (same, (copied-same r f hr hf).0, e)
            (rw same at
              (rw (ap (copied r (suc f)) same ∙ (copied-same r f hr hf).1) at (c.agrees s hs)))
      | no apart ↦ rw (copied-ne r f s hr apart) (c.agrees s hs)
    ];
  }
  copy_square-IsCopy r f (some p) pos hr hf e c = record {
    board_ok = put-IsBoard pos.board (f * 9 + r) (some p) (omega arith) c.board_ok;
    agrees = λ s hs. elim (ℕ_discrete s (f * 9 + r)) [
      | yes same ↦
          rw (same, (copied-same r f hr hf).0, e)
            (get-put_self pos.board (f * 9 + r) (some p) (omega arith) c.board_ok)
      | no apart ↦
          rw (copied-ne r f s hr apart)
            (get-put_ne pos.board (f * 9 + r) s (some p) (λ q. apart (sym q)) ∙ c.agrees s hs)
    ];
  }

  copy_files-IsCopy :
      (r n : ℕ) (pos : Position Info)
      → r < 9
      → n ≤ 9
      → IsCopy r n pos
      → IsCopy r 0 (copy_files r n pos)
  unfolding copy_files
  copy_files-IsCopy r zero pos hr hn c = c
  copy_files-IsCopy r (suc f) pos hr hn c =
      copy_files-IsCopy r f (copy_square (f * 9 + r) (get b (f * 9 + r)) pos) hr (omega arith)
        (copy_square-IsCopy r f (get b (f * 9 + r)) pos hr (omega arith) refl c)

  -- A whole rank is the start of the next.
  copied-next : (r s : ℕ) → IsSquare s → copied r 0 s ≡ copied (r + 1) 9 s
  copied-next r s hs = ground arith

  next-IsCopy : (r : ℕ) (pos : Position Info) → IsCopy r 0 pos → IsCopy (r + 1) 9 pos
  next-IsCopy r pos c = record {
    board_ok = c.board_ok;
    agrees = λ s hs. rw (← copied-next r s hs) (c.agrees s hs);
  }

  pub copy_ranks-IsCopy :
      (r n : ℕ) (pos : Position Info)
      → r + n ≤ 9
      → IsCopy r 9 pos
      → IsCopy (r + n) 9 (copy_ranks r n pos)
  unfolding copy_ranks
  copy_ranks-IsCopy r zero pos h c = rw (add-zero r) c
  copy_ranks-IsCopy r (suc n) pos h c =
      let shift : r + suc n ≡ r + 1 + n = omega arith in
      rw shift (
        copy_ranks-IsCopy (r + 1) n (copy_files r 9 pos) (omega arith) (
          next-IsCopy r (copy_files r 9 pos)
            (copy_files-IsCopy r 9 pos (omega arith) (omega arith) c)))

  pub start-IsCopy : (pos : Position Info) → pos.board ≡ Board.empty → IsCopy 0 9 pos
  unfolding Board.empty get
  start-IsCopy pos e = record {
    board_ok = rw e empty-IsBoard;
    agrees = λ s hs.
        let none_yet : copied 0 9 s ≡ false = ground arith in
        rw (none_yet, e) (get_or-replicate 81 s none none hs);
  }

  pub whole-IsCopy : (pos : Position Info) → IsBoard b → IsCopy 9 9 pos → pos.board ≡ b
  unfolding get
  whole-IsCopy pos h c = eq_of_squares c.board_ok h (
      get_or_ext none pos.board.squares b.squares (c.board_ok.size ∙ sym h.size)
        (λ s hs. same s (rw (c.board_ok.size) at hs)))
    where
      same : (s : ℕ) → s < 81 → get_or pos.board.squares s none ≡ get_or b.squares s none
      same s hs = let all : copied 9 9 s ≡ true = ground arith in rw all at (c.agrees s hs)

  -- What the loop leaves alone.
  abbrev pub SameRest : Position Info → Position Info → Type 0
  SameRest p q = (p.hands ≡ q.hands) × (p.side_to_move ≡ q.side_to_move) × (p.ply ≡ q.ply)

  copy_square-rest :
      (s : Square) (o : Option Piece) (pos : Position Info) → SameRest (copy_square s o pos) pos
  unfolding copy_square board_mut
  copy_square-rest s none pos = (refl, refl, refl)
  copy_square-rest s (some p) pos = (refl, refl, refl)

  copy_files-rest : (r n : ℕ) (pos : Position Info) → SameRest (copy_files r n pos) pos
  unfolding copy_files
  copy_files-rest r zero pos = (refl, refl, refl)
  copy_files-rest r (suc f) pos =
      let (h1, s1, p1) = copy_files-rest r f (copy_square (f * 9 + r) (get b (f * 9 + r)) pos) in
      let (h2, s2, p2) = copy_square-rest (f * 9 + r) (get b (f * 9 + r)) pos in
      (h1 ∙ h2, s1 ∙ s2, p1 ∙ p2)

  pub copy_ranks-rest : (r n : ℕ) (pos : Position Info) → SameRest (copy_ranks r n pos) pos
  unfolding copy_ranks
  copy_ranks-rest r zero pos = (refl, refl, refl)
  copy_ranks-rest r (suc n) pos =
      let (h1, s1, p1) = copy_ranks-rest (r + 1) n (copy_files r 9 pos) in
      let (h2, s2, p2) = copy_files-rest r 9 pos in (h1 ∙ h2, s1 ∙ s2, p1 ∙ p2)

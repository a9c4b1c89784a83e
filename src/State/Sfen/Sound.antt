-- ===== src/State/Sfen/Sound.antt =====
-- The parser of SFEN texts never panics, and what it returns is a valid position.
use attic_shogi.Prelude.{
  ℕ, inl, inr, false, ◌==◌, if◌then◌else◌, Bool-cases, Option-cases, List, [], ◌∷◌, not,
}
use attic_shogi.State.Piece.{Color, black, white, PieceKind, at, set_at}
use attic_shogi.State.Hand.Laws.{IsHand}
use attic_shogi.State.Position.Types.{CheckOps, Position}
use attic_shogi.State.Position.Valid.{IsPosition}
use attic_shogi.State.Position.Hash.{IsExact}
use attic_shogi.State.Position.Setters.{
  hand_mut, set_side_to_move, set_ply, refresh_keys-IsPosition,
}
use attic_shogi.State.Sfen.Chars.{Text, parse_u16, split, is_ascii_digit, is_hand_kind}
use attic_shogi.State.Sfen.Parser.{
  empty_position, parse_side_to_move, increments, Counting, hand_char, hand_chars, end_of_hands,
  is_dash, parse_hands, parse_ply, parse_fields, parse_sfen,
}
use attic_shogi.State.Sfen.Outcome.{
  Outcome, returned, failed, Outcome->>=, parse_piece_char-Outcome, increments-IsHand, parse_u16-lt,
}
use attic_shogi.State.Sfen.BoardField.{IsReady, parse_board-Outcome, empty_position-IsReady}

module _ {Info : Type 0} where
  parse_side_to_move-Outcome :
      (ops : CheckOps Info) (t : Text) (pos : Position Info)
      → IsReady pos
      → Outcome IsReady (parse_side_to_move ops t pos)
  unfolding parse_side_to_move set_side_to_move
  parse_side_to_move-Outcome ops [] pos h = failed _
  parse_side_to_move-Outcome ops (token ∷ []) pos h = elim (Bool-cases (token == b'b')) [
    | inl e ↦ rw e (returned _ turned)
    | inr e ↦ rw e (elim (Bool-cases (token == b'w')) [
      | inl f ↦ rw f (returned _ turned)
      | inr f ↦ rw f (failed _)
    ])
  ]
    where
      turned : {c : Color} → IsReady (set_side_to_move ops c pos)
      turned = record { board = h.board; hands = h.hands; ply = h.ply }
  parse_side_to_move-Outcome ops (token ∷ c ∷ t) pos h = failed _

  -- The loop of the hands, in which only they change.
  hand_mut-IsReady :
      (c : Color) (n : ℕ) (kind : PieceKind) (pos : Position Info)
      → IsReady pos
      → IsReady (hand_mut c (increments n kind) pos)
  unfolding hand_mut
  hand_mut-IsReady black n kind pos h = record { board = h.board; hands = held; ply = h.ply }
    where
      held :
          (c : Color)
          → IsHand (at (set_at pos.hands black (increments n kind (at pos.hands black))) c)
      held black = increments-IsHand n kind _ (h.hands black)
      held white = h.hands white
  hand_mut-IsReady white n kind pos h = record { board = h.board; hands = held; ply = h.ply }
    where
      held :
          (c : Color)
          → IsHand (at (set_at pos.hands white (increments n kind (at pos.hands white))) c)
      held black = h.hands black
      held white = increments-IsHand n kind _ (h.hands white)

  abbrev IsCounting : Counting Info → Type 0
  IsCounting k = IsReady k.pos

  hand_char-Outcome :
      (ch : ℕ) (k : Counting Info) → IsReady k.pos → Outcome IsCounting (hand_char ch k)
  unfolding hand_char
  hand_char-Outcome ch k h = elim (Bool-cases (is_ascii_digit ch)) [
    | inl e ↦ rw e (returned _ h)
    | inr e ↦ rw e (
        Outcome->>= (parse_piece_char-Outcome ch) λ named u.
          elim (Bool-cases (not (is_hand_kind (named.0)))) [
            | inl f ↦ rw f (failed _)
            | inr f ↦ rw f (
                returned _ (
                  hand_mut-IsReady (named.1) (if k.count_started then k.count else 1) (named.0)
                    k.pos h))
          ])
  ]

  hand_chars-Outcome :
      (t : Text) (k : Counting Info) → IsReady k.pos → Outcome IsCounting (hand_chars t k)
  unfolding hand_chars
  hand_chars-Outcome [] k h = returned k h
  hand_chars-Outcome (ch ∷ t) k h = Outcome->>= (hand_char-Outcome ch k h) (hand_chars-Outcome t)

  parse_hands-Outcome :
      (t : Text) (pos : Position Info) → IsReady pos → Outcome IsReady (parse_hands t pos)
  unfolding parse_hands end_of_hands
  parse_hands-Outcome [] pos h = failed _
  parse_hands-Outcome (c ∷ t) pos h = elim (Bool-cases (is_dash (c ∷ t))) [
    | inl e ↦ rw e (returned pos h)
    | inr e ↦ rw e (
        Outcome->>= {f = end_of_hands}
          (hand_chars-Outcome (c ∷ t) (record { pos = pos; count = 0; count_started = false }) h)
          λ k h'. elim (Bool-cases k.count_started) [
            | inl f ↦ rw f (failed _)
            | inr f ↦ rw f (returned _ h')
          ])
  ]

  parse_ply-Outcome :
      (t : Text) (pos : Position Info) → IsReady pos → Outcome IsReady (parse_ply t pos)
  unfolding parse_ply set_ply
  parse_ply-Outcome t pos h = elim (Option-cases (parse_u16 t)) [
    | inl e ↦ rw e (failed _)
    | inr (n, e) ↦
        rw e (returned _ (record { board = h.board; hands = h.hands; ply = parse_u16-lt t n e }))
  ]

  -- A valid position, with exact keys.
  abbrev pub IsSound : Position Info → Type 0
  IsSound pos = IsPosition pos × IsExact pos

  parse_fields-Outcome :
      (ops : CheckOps Info) (fields : List Text) → Outcome IsSound (parse_fields ops fields)
  unfolding parse_fields
  parse_fields-Outcome ops [] = failed _
  parse_fields-Outcome ops (a ∷ []) = failed _
  parse_fields-Outcome ops (a ∷ b ∷ []) = failed _
  parse_fields-Outcome ops (a ∷ b ∷ c ∷ []) = failed _
  parse_fields-Outcome ops (board ∷ stm ∷ hand ∷ ply ∷ []) =
      Outcome->>= (parse_board-Outcome ops board (empty_position ops) (empty_position-IsReady ops))
        λ pos h. Outcome->>= (parse_side_to_move-Outcome ops stm pos h) λ turned h2.
          Outcome->>= (parse_hands-Outcome hand turned h2) λ held h3.
            Outcome->>= (parse_ply-Outcome ply held h3)
              λ played h4. returned _ (refresh_keys-IsPosition ops played h4.board h4.hands h4.ply)
  parse_fields-Outcome ops (a ∷ b ∷ c ∷ d ∷ e ∷ rest) = failed _

  -- Every text is parsed or rejected with an error: no `unwrap` of the parser fails, whatever the
  -- text, and a position that it returns is valid and its keys are exact. In the release build, where
  -- the count of a hand wraps around.
  pub parse_sfen-Outcome : (ops : CheckOps Info) (s : Text) → Outcome IsSound (parse_sfen ops s)
  unfolding parse_sfen
  parse_sfen-Outcome ops s = parse_fields-Outcome ops (split b' ' s)

-- ===== src/State/Sfen/HandRoundTrip.antt =====
-- The hands field round trip: `parse_hands` reads back the hands that `format_hands` prints.
use attic_shogi.Prelude.{
  ℕ, ◌^◌, ◌≤◌, ◌<◌, ◌≡◌, refl, sym, ap, ◌∙◌, Bool, true, false, ◌==◌, if◌then◌else◌, Bool-cases,
  inl, inr, List, [], ◌∷◌, ◌++◌, eq_of_==, arith,
}
use attic_shogi.Prelude.Result.{Result, ok, err, ◌>>=◌}
use attic_shogi.State.Piece.{Color, black, white, PieceKind, PerColor, at, set_at}
use attic_shogi.State.Hand
use attic_shogi.State.Hand.{Hand, increment, count, slot, max_by_kind}
use attic_shogi.State.Hand.Laws.{IsHand, cap}
use attic_shogi.State.Position.Types.{Position}
use attic_shogi.State.Position.Setters.{hand_mut}
use attic_shogi.State.Sfen.Chars.{
  Text, Failure, piece_char, parse_piece_char, to_string, is_ascii_digit, is_hand_kind,
}
use attic_shogi.State.Sfen.Parser.{
  Counting, increments, hand_char, hand_chars, end_of_hands, is_dash, parse_hands,
}
use attic_shogi.State.Sfen.Printer.{format_held, format_hands, hand_output_order, or_dash}
use attic_shogi.State.Sfen.Rows.{++_assoc, parse-piece_char, piece_char-letter}
use attic_shogi.State.Sfen.Numbers.{counting, hand_chars-decimal, ++-empty}
use attic_shogi.State.Sfen.Gained.{gained_kind, gained, gained-all}

abbrev AllHeld : List PieceKind → Type 0
AllHeld [] = Unit
AllHeld (k ∷ ks) = (is_hand_kind k ≡ true) × AllHeld ks

cap-le : (k : PieceKind) → cap k ≤ 18
cap-le k = ground arith

set_at-set_at :
    (c : Color) (p : PerColor Hand) (g h : Hand) → set_at (set_at p c g) c h ≡ set_at p c h
set_at-set_at black p g h = refl
set_at-set_at white p g h = refl

at-set_at_self : (c : Color) (p : PerColor Hand) (g : Hand) → at (set_at p c g) c ≡ g
at-set_at_self black p g = refl
at-set_at_self white p g = refl

set_at-at : (c : Color) (p : PerColor Hand) → set_at p c (at p c) ≡ p
set_at-at black p = refl
set_at-at white p = refl

order-AllHeld : AllHeld hand_output_order
order-AllHeld = (refl, (refl, (refl, (refl, (refl, (refl, (refl, tt)))))))

module _ {Info : Type 0} (c : Color) where
  -- The position after a count and a letter, and after the letters of the kinds a hand holds.
  give : (n : ℕ) → PieceKind → Position Info → Position Info
  give n k pos = hand_mut c (increments n k) pos

  give_kind : Hand → PieceKind → Position Info → Position Info
  give_kind h k pos = if count h k == 0 then pos else give (count h k) k pos

  give_all : Hand → List PieceKind → Position Info → Position Info
  give_all h [] pos = pos
  give_all h (k ∷ ks) pos = give_all h ks (give_kind h k pos)

  chars-letter :
      (n : ℕ) (started : Bool) (k : PieceKind) (t : Text) (pos : Position Info)
      → is_hand_kind k ≡ true
      → hand_chars (piece_char k c ∷ t) (counting pos n started)
        ≡ hand_chars t (counting (give (if started then n else 1) k pos) 0 false)
  unfolding hand_chars hand_char give
  chars-letter n started k t pos hk =
      let letter = piece_char-letter k c in
      let no_digit : is_ascii_digit (piece_char k c) ≡ false = ground (arith, letter) in
      rw (no_digit, parse-piece_char k c, hk) refl

  -- The text of one kind that is held.
  chars-kind :
      (n : ℕ) (k : PieceKind) (t : Text) (pos : Position Info)
      → is_hand_kind k ≡ true
      → n < 10 ^ 5
      → hand_chars
          ((if n == 1 then [] else to_string n) ++ (piece_char k c ∷ t))
          (counting pos 0 false)
        ≡ hand_chars t (counting (give n k pos) 0 false)
  unfolding to_string
  chars-kind n k t pos hk h = elim (Bool-cases (n == 1)) [
    | inl one ↦ rw one (
        chars-letter 0 false k t pos hk
        ∙ ap (λ m. hand_chars t (counting (give m k pos) 0 false)) (sym (eq_of_== n 1 one)))
    | inr more ↦ rw more (
        hand_chars-decimal 4 n (piece_char k c ∷ t) pos h (omega arith)
        ∙ chars-letter n true k t pos hk)
  ]

  chars-held :
      (h : Hand) (ks : List PieceKind) (t : Text) (pos : Position Info)
      → IsHand h
      → AllHeld ks
      → hand_chars (format_held h c ks ++ t) (counting pos 0 false)
        ≡ hand_chars t (counting (give_all h ks pos) 0 false)
  unfolding format_held give_all give_kind
  chars-held h [] t pos v a = refl
  chars-held h (k ∷ ks) t pos v a = elim (Bool-cases (count h k == 0)) [
    | inl free ↦ rw (give_kind, free) (chars-held h ks t pos v (a.1))
    | inr held ↦
        let n = count h k in
        let rest = format_held h c ks in
        let split_text = ++_assoc (if n == 1 then [] else to_string n) (piece_char k c ∷ rest) t in
        rw (give_kind, held, split_text)
          (chars-kind n k (rest ++ t) pos (a.0) (omega (arith, v.within k, cap-le k))
            ∙ chars-held h ks t (give n k pos) v (a.1))
  ]

  -- What the letters leave alone, and the hand they fill.
  abbrev Gave : PerColor Hand → Position Info → Position Info → Type 0
  Gave hands q p =
      (q.hands ≡ hands) × (q.board ≡ p.board) × (q.side_to_move ≡ p.side_to_move) × (q.ply ≡ p.ply)

  give_kind-Gave :
      (h : Hand) (k : PieceKind) (pos : Position Info)
      → Gave (set_at pos.hands c (gained_kind h k (at pos.hands c))) (give_kind h k pos) pos
  unfolding give_kind give gained_kind hand_mut
  give_kind-Gave h k pos = elim (Bool-cases (count h k == 0)) [
    | inl e ↦ rw e (sym (set_at-at c pos.hands), refl, refl, refl)
    | inr e ↦ rw e (refl, refl, refl, refl)
  ]

  give_all-Gave :
      (h : Hand) (ks : List PieceKind) (pos : Position Info)
      → Gave (set_at pos.hands c (gained h ks (at pos.hands c))) (give_all h ks pos) pos
  unfolding give_all gained
  give_all-Gave h [] pos = (sym (set_at-at c pos.hands), refl, refl, refl)
  give_all-Gave h (k ∷ ks) pos =
      let (h1, b1, s1, p1) = give_kind-Gave h k pos in
      let (h2, b2, s2, p2) = give_all-Gave h ks (give_kind h k pos) in
      let g = gained_kind h k (at pos.hands c) in
      let filled : set_at (set_at pos.hands c g) c (gained h ks (at (set_at pos.hands c g) c))
          ≡ set_at pos.hands c (gained h ks g) =
        set_at-set_at c pos.hands g _
        ∙ ap (λ u. set_at pos.hands c (gained h ks u)) (at-set_at_self c pos.hands g) in
      (h2 ∙ ap (λ u. set_at u c (gained h ks (at u c))) h1 ∙ filled, b2 ∙ b1, s2 ∙ s1, p2 ∙ p1)

  give_all-empty :
      (h : Hand) (pos : Position Info)
      → IsHand h
      → at pos.hands c ≡ Hand.empty
      → Gave (set_at pos.hands c h) (give_all h hand_output_order pos) pos
  give_all-empty h pos v e =
      let (h1, b1, s1, p1) = give_all-Gave h hand_output_order pos in
      (
        h1 ∙ ap (λ u. set_at pos.hands c u) (ap (gained h hand_output_order) e ∙ gained-all h v),
        b1,
        s1,
        p1,
      )

module _ {Info : Type 0} where
  abbrev pos_of : Position Info → Result Failure (Counting Info) → Position Info
  pos_of p (ok k) = k.pos
  pos_of p (err e) = p

  chars-end : (k : Counting Info) → hand_chars [] k ≡ ok k
  unfolding hand_chars
  chars-end k = refl

  dash-error :
      (pos q : Position Info)
      → hand_chars (b'-' ∷ []) (counting pos 0 false) ≡ ok (counting q 0 false)
      → ⊥
  unfolding hand_chars hand_char parse_piece_char
  dash-error pos q e = cc

  parse-or_dash :
      (text : Text) (pos q : Position Info)
      → hand_chars text (counting pos 0 false) ≡ ok (counting q 0 false)
      → parse_hands (or_dash text) pos ≡ ok q
  unfolding parse_hands is_dash hand_chars end_of_hands
  parse-or_dash [] pos q e = ap (λ r. ok (pos_of pos r)) e
  parse-or_dash (ch ∷ []) pos q e = elim (Bool-cases (ch == b'-')) [
    | inl dash ↦ absurd (dash-error pos q (rw (eq_of_== ch b'-' dash) at e))
    | inr other ↦ rw other (ap (λ r. r >>= end_of_hands) e)
  ]
  parse-or_dash (ch ∷ d ∷ t) pos q e = ap (λ r. r >>= end_of_hands) e

  -- The printed hands parse back to the hands, from a position with empty hands, whose board, side
  -- to move and ply stay. For hands within their caps.
  pub parse_hands-format_hands :
      (hands : PerColor Hand) (pos : Position Info)
      → ((c : Color) → IsHand (at hands c))
      → at pos.hands black ≡ Hand.empty
      → at pos.hands white ≡ Hand.empty
      → (q : Position Info) × (parse_hands (format_hands hands) pos ≡ ok q)
        × (q.hands ≡ hands)
        × (q.board ≡ pos.board)
        × (q.side_to_move ≡ pos.side_to_move)
        × (q.ply ≡ pos.ply)
  unfolding format_hands
  parse_hands-format_hands hands pos v eb ew =
      let p1 = give_all black (at hands black) hand_output_order pos in
      let p2 = give_all white (at hands white) hand_output_order p1 in
      let (h1, b1, s1, y1) = give_all-empty black (at hands black) pos (v black) eb in
      let (h2, b2, s2, y2) =
        give_all-empty white (at hands white) p1 (v white) (ap (λ u. at u white) h1 ∙ ew) in
      let text = λ (c : Color). format_held (at hands c) c hand_output_order in
      let read : hand_chars (text black ++ text white) (counting pos 0 false)
          ≡ ok (counting p2 0 false) =
        chars-held black (at hands black) hand_output_order (text white) pos (v black) order-AllHeld
        ∙ ap (λ u. hand_chars u (counting p1 0 false)) (sym (++-empty (text white)))
        ∙ chars-held white (at hands white) hand_output_order [] p1 (v white) order-AllHeld
        ∙ chars-end (counting p2 0 false) in
      (
        p2,
        parse-or_dash (text black ++ text white) pos p2 read,
        h2 ∙ ap (λ u. set_at u white (at hands white)) h1,
        b2 ∙ b1,
        s2 ∙ s1,
        y2 ∙ y1,
      )

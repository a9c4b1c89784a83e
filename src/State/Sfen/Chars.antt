-- ===== src/State/Sfen/Chars.antt =====
-- The characters of an SFEN text, the errors of its parser, and the numbers in it.
use attic_shogi.Prelude.{
  ℕ, zero, suc, ◌+◌, ◌-◌, ◌*◌, ◌/◌, ◌%◌, ◌^◌, Bool, true, false, ◌&&◌, ◌==◌, ltb, leb,
  if◌then◌else◌, Option, none, some, List, [], ◌∷◌, ◌++◌,
}
use Prim.Native.Char.{code}
use Prim.Native.String.{String}
use attic_shogi.Prelude.Result.{Result, ok, err, ◌>>=◌}
use attic_shogi.State.Piece.{
  Color, black, white, PieceKind, pawn, lance, knight, silver, gold, bishop, rook, king,
}

abbrev pub Text : Type 0
Text = List ℕ

-- The characters of a text.
abbrev pub codes : String → Text
codes String.[] = []
codes (String.◌∷◌ c s) = code c ∷ codes s

-- `STARTPOS_SFEN`.
abbrev pub startpos_sfen : Text
startpos_sfen = codes "lnsgkgsnl/1r5b1/ppppppppp/9/9/9/PPPPPPPPP/1B5R1/LNSGKGSNL b - 1"

pub data SfenError : Type 0 where
  unexpected_end unexpected_promote_marker board_cursor_overflow : SfenError
  board_cursor_incomplete missing_hand_piece_after_count invalid_ply unexpected_trailing : SfenError
  invalid_piece non_promotable_promoted invalid_side_to_move invalid_hand_piece : ℕ → SfenError

-- An error that the parser returns, or the panic of an `unwrap`.
pub data Failure : Type 0 where
  sfen : SfenError → Failure
  panic : Failure

abbrev pub ok_or {ℓ} : {A : Type ℓ} → Option A → SfenError → Result Failure A
ok_or none e = err (sfen e)
ok_or (some a) e = ok a

abbrev pub is_ascii_uppercase : ℕ → Bool
is_ascii_uppercase c = leb b'A' c && leb c b'Z'

abbrev pub is_ascii_lowercase : ℕ → Bool
is_ascii_lowercase c = leb b'a' c && leb c b'z'

abbrev pub is_ascii_digit : ℕ → Bool
is_ascii_digit c = leb b'0' c && leb c b'9'

abbrev pub to_ascii_uppercase : ℕ → ℕ
to_ascii_uppercase c = if is_ascii_lowercase c then c - 32 else c

abbrev pub to_ascii_lowercase : ℕ → ℕ
to_ascii_lowercase c = if is_ascii_uppercase c then c + 32 else c

-- The kind of a capital letter.
unfoldable pub kind_of_upper : ℕ → Option PieceKind
kind_of_upper c =
    if c == b'P'
    then some pawn
    else if c == b'L'
    then some lance
    else if c == b'N'
    then some knight
    else if c == b'S'
    then some silver
    else if c == b'G'
    then some gold
    else if c == b'B'
    then some bishop
    else if c == b'R'
    then some rook
    else if c == b'K'
    then some king
    else none

-- The colour of a letter's case.
unfoldable pub color_of_case : ℕ → Option Color
color_of_case c =
    if is_ascii_uppercase c then some black else if is_ascii_lowercase c then some white else none

unfoldable pub parse_piece_char : ℕ → Result Failure (PieceKind × Color)
unfolding kind_of_upper color_of_case
parse_piece_char ch = do
  color ← ok_or (color_of_case ch) (invalid_piece ch)
  kind ← ok_or (kind_of_upper (to_ascii_uppercase ch)) (invalid_piece ch)
  ok (kind, color)

unfoldable pub upper_of_kind : PieceKind → ℕ
upper_of_kind pawn = b'P'
upper_of_kind lance = b'L'
upper_of_kind knight = b'N'
upper_of_kind silver = b'S'
upper_of_kind gold = b'G'
upper_of_kind bishop = b'B'
upper_of_kind rook = b'R'
upper_of_kind king = b'K'

unfoldable pub piece_char : PieceKind → Color → ℕ
unfolding upper_of_kind
piece_char kind black = upper_of_kind kind
piece_char kind white = to_ascii_lowercase (upper_of_kind kind)

abbrev pub is_hand_kind : PieceKind → Bool
is_hand_kind king = false
is_hand_kind _ = true

-- The digits of `u16::from_str`, which fails on overflow.
unfoldable pub read_u16 : Text → ℕ → Option ℕ
read_u16 [] acc = some acc
read_u16 (c ∷ t) acc =
    let next = acc * 10 + (c - b'0') in
    let rest = read_u16 t next in if is_ascii_digit c && ltb next (2 ^ 16) then rest else none

-- `str::parse::<u16>`: a `+` may stand before the digits.
unfoldable pub parse_u16 : Text → Option ℕ
unfolding read_u16
parse_u16 [] = none
parse_u16 (c ∷ []) = read_u16 (c ∷ []) 0
parse_u16 (c ∷ d ∷ t) = if c == b'+' then read_u16 (d ∷ t) 0 else read_u16 (c ∷ d ∷ t) 0

-- `to_string` of a number, with fuel for its digits.
unfoldable pub decimal : (fuel : ℕ) → ℕ → Text
decimal zero n = (b'0' + n % 10) ∷ []
decimal (suc f) n =
    let front = decimal f (n / 10) in
    if ltb n 10 then (b'0' + n) ∷ [] else front ++ ((b'0' + n % 10) ∷ [])

-- A `u16` has at most five digits.
unfoldable pub to_string : ℕ → Text
unfolding decimal
to_string n = decimal 4 n

-- `split(' ')`: at least one field.
unfoldable pub split : (separator : ℕ) → Text → List Text
split sep [] = [] ∷ []
split sep (c ∷ t) = elim (split sep t) [
  | [] ↦ [] ∷ []
  | field ∷ fields ↦ if c == sep then [] ∷ field ∷ fields else (c ∷ field) ∷ fields
]

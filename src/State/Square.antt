-- ===== src/State/Square.antt =====
-- Squares, crates/attic-state/src/square.rs: an index below 81, file times nine plus rank. A `u8`
-- is a number here; the products stay below 2 ^ 8.
use attic_shogi.Prelude.{
  ℕ, ◌+◌, ◌*◌, ◌/◌, ◌%◌, ◌<◌, ◌≡◌, ◌&&◌, Option, none, some, ltb, if◌then◌else◌, arith,
}

-- `Square(u8)`; a value made by the constructors is in range, `IsSquare`.
abbrev pub Square : Type 0
Square = ℕ

abbrev pub files : ℕ
files = 9

abbrev pub ranks : ℕ
ranks = 9

abbrev pub square_count : ℕ
square_count = 81

abbrev pub IsSquare : Square → Type 0
IsSquare s = s < square_count

-- `Square::new`.
unfoldable pub new : ℕ → ℕ → Option Square
new f r = if ltb f files && ltb r ranks then some (f * ranks + r) else none

unfoldable pub from_index : ℕ → Option Square
from_index i = if ltb i square_count then some i else none

abbrev pub file : Square → ℕ
file s = s / ranks

abbrev pub rank : Square → ℕ
rank s = s % ranks

-- A file and a rank below 9 give a square, which has them.
pub new-file-rank :
    (f r : ℕ)
    → f < files
    → r < ranks
    → (s : Square) × (new f r ≡ some s) × IsSquare s × (file s ≡ f) × (rank s ≡ r)
unfolding new
new-file-rank f r p q = (f * ranks + r, ground arith, omega arith, omega arith, omega arith)

-- A square is the one that its own file and rank give.
pub new_of_square : (s : Square) → IsSquare s → new (file s) (rank s) ≡ some s
unfolding new
new_of_square s h = ground arith

-- Coordinates off the board give none.
pub new-IsSquare :
    (f r : ℕ) {s : Square} → new f r ≡ some s → (f < files) × (r < ranks) × IsSquare s
unfolding new
new-IsSquare f r h = ground arith

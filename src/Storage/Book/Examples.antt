-- ===== src/Storage/Book/Examples.antt =====
-- A book of two records, in memory and in files that hold it.
use attic_shogi.Prelude.{
  ℕ, zero, suc, ◌+◌, ◌^◌, ◌≤◌, ◌<◌, ◌≡◌, refl, sym, true, false, ==_ne, ◌==◌, leb, if◌then◌else◌,
  List, [], ◌∷◌, map, length, replicate, none, some, arith,
}
use mathlib.Core.Option.{none-ne-some, some-injective}
use attic_shogi.Prelude.Int.{pos, negsuc}
use attic_shogi.Prelude.Result.{ok}
use attic_shogi.Storage.Bytes.{Bytes, slice}
use attic_shogi.Storage.Bytes.Laws.{leb-true, leb-false}
use attic_shogi.Storage.Book.{
  Book, File, filled, unexpected_eof, from_memory, open_on_the_fly, probe, memory, file, read_moves,
  IndexEntry, cmp,
}
use attic_shogi.Storage.Book.Open.{Opened, from_memory-Opened, header_book}
use attic_shogi.Storage.Book.Rounds.{Ends}
use attic_shogi.Storage.Book.Search.{probe-Ends}
use attic_shogi.Storage.Book.Find.{Found}
use attic_shogi.Storage.Book.Reads.{entry_at, from_memory-ok, Holds, from_memory-Found}
use attic_shogi.Storage.Book.Modes.{open_on_the_fly-from_memory}
use attic_shogi.Storage.Book.Build.{RawMove, RawRecord, build_ybb}
use attic_shogi.Storage.Book.Decode.{All, IsRecord, IsMove, book_move}
use attic_shogi.Storage.Book.Built.{build-IsHeader, build-index_end, build-count}
use attic_shogi.Storage.Book.RoundTrip.{Sorted, build-offsets, build-Ascends, probe-build_ybb}

abbrev key : ℕ → Bytes
key first = first ∷ replicate 31 0

abbrev first_move : RawMove
first_move = record { move16 = 4369; value = pos 42; depth = 20 }

abbrev second_move : RawMove
second_move = record { move16 = 8738; value = negsuc 12; depth = 18 }

abbrev one : RawRecord
one = record { packed = key 1; ply = 1; moves = [] }

abbrev three : RawRecord
three = record { packed = key 3; ply = 5; moves = first_move ∷ second_move ∷ [] }

abbrev records : List RawRecord
records = one ∷ three ∷ []

first_move-IsMove : IsMove first_move
first_move-IsMove = record {
  move16 = omega arith;
  value = (omega arith, omega arith);
  depth = omega arith;
}

second_move-IsMove : IsMove second_move
second_move-IsMove = record {
  move16 = omega arith;
  value = (omega arith, omega arith);
  depth = omega arith;
}

records-IsRecord : All IsRecord records
records-IsRecord = (
  record { packed = refl; ply = omega arith; few = omega arith; moves = tt },
  (
    record {
      packed = refl;
      ply = omega arith;
      few = omega arith;
      moves = (first_move-IsMove, (second_move-IsMove, tt));
    },
    tt,
  ),
)

records-Sorted : Sorted records
unfolding cmp
records-Sorted zero zero q r h e f = absurd (omega arith)
records-Sorted zero (suc zero) q r h e f =
    let p : one ≡ q = some-injective _ _ e in
    let s : three ≡ r = some-injective _ _ f in rw (sym p, sym s) refl
records-Sorted zero (suc (suc j)) q r h e f = absurd (none-ne-some _ f)
records-Sorted (suc zero) zero q r h e f = absurd (omega arith)
records-Sorted (suc zero) (suc zero) q r h e f = absurd (omega arith)
records-Sorted (suc zero) (suc (suc j)) q r h e f = absurd (none-ne-some _ f)
records-Sorted (suc (suc i)) j q r h e f = absurd (none-ne-some _ e)

length-data_ : length (build_ybb records true) ≡ 132
unfolding build_ybb
length-data_ = refl

small : length (build_ybb records true) < 2 ^ 63
small = let l = length-data_ in omega arith

fits : length (build_ybb records true) < 2 ^ 64
fits = let l = length-data_ in omega arith

abbrev book : Book
book = header_book (build_ybb records true) (memory (build_ybb records true))

opened : from_memory (build_ybb records true) ≡ ok book
opened =
    let stop = build-index_end records true records-IsRecord fits in
    from_memory-ok (build-IsHeader records true records-IsRecord fits) (omega arith)

-- A file that holds the bytes, as an operating system reads it.
abbrev file_of : Bytes → File
file_of d = record {
  seek = λ offset. none;
  read_exact = λ offset n.
      if n == 0
      then filled []
      else if leb (offset + n) (length d)
      then filled (slice offset n d)
      else unexpected_eof;
}

file_of-Holds : (d : Bytes) → Holds d (file_of d)
file_of-Holds d = record {
  seek = λ offset p. refl;
  read = read;
  read_past =
      λ offset n p q. rw (==_ne n 0 (λ e. omega arith), leb-false (offset + n) (length d) p) refl;
  read_none = λ offset. refl;
}
  where
    read :
        (offset n : ℕ)
        → offset + n ≤ length d
        → (file_of d).read_exact offset n ≡ filled (slice offset n d)
    read offset zero p = refl
    read offset (suc n) p =
        rw (==_ne (suc n) 0 (λ e. omega arith), leb-true (offset + suc n) (length d) p) refl

probe-build_ybb_example :
    (b : Book) × (from_memory (build_ybb records true) ≡ ok b)
    × (probe b (key 3) 5 false ≡ some (ok (some (map (book_move true) three.moves))))
probe-build_ybb_example =
    probe-build_ybb records true records-IsRecord records-Sorted
      (let l = length-data_ in omega arith) 1 three refl false

from_memory-Opened_example : Opened (build_ybb records true) (from_memory (build_ybb records true))
from_memory-Opened_example = from_memory-Opened (build_ybb records true)

from_memory-Found_example :
    Found book (entry_at (build_ybb records true)) (key 2) 1 true (probe book (key 2) 1 true)
from_memory-Found_example =
    from_memory-Found (build_ybb records true) book opened
      (build-Ascends records true records-IsRecord fits records-Sorted) (key 2) 1 true

probe-Ends_example : Ends (probe book (key 2) 1 true)
probe-Ends_example =
    probe-Ends book (key 2) 1 true
      (let c = build-count records true records-IsRecord fits in omega arith)

open_on_the_fly-from_memory_example :
    (c : Book) × (open_on_the_fly
        (ok (file_of (build_ybb records true)))
        (ok (file_of (build_ybb records true)))
      ≡ ok c)
    × (probe c (key 3) 5 false ≡ probe book (key 3) 5 false)
open_on_the_fly-from_memory_example =
    open_on_the_fly-from_memory (build_ybb records true) (file_of (build_ybb records true))
      (file_of (build_ybb records true)) book (file_of-Holds (build_ybb records true))
      (file_of-Holds (build_ybb records true)) small opened
      (build-offsets records true records-IsRecord fits) (key 3) 5 false

-- A record without moves whose offset lies past the end of the file: the book in memory misses, and
-- the one on the fly finds an empty list.
abbrev stray : IndexEntry
stray = record { packed = key 1; moves_offset = 100; ply = 1; move_count = 0 }

stray_in_memory : read_moves book stray ≡ ok none
unfolding read_moves build_ybb attic_shogi.Storage.Bytes.read_u64_le
stray_in_memory = refl

stray_on_the_fly :
    read_moves
      (header_book
        (build_ybb records true)
        (file (file_of (build_ybb records true)) (file_of (build_ybb records true))))
      stray
    ≡ ok (some [])
unfolding read_moves build_ybb attic_shogi.Storage.Bytes.read_u64_le
stray_on_the_fly = refl

-- ===== src/Storage/Book/Build.antt =====
-- A book as it is written: `build_ybb` of the tests of crates/attic-storage/src/book.rs, from the
-- records as the sort by key leaves them.
use attic_shogi.Prelude.{ℕ, ◌+◌, ◌%◌, ◌^◌, Bool, if◌then◌else◌, List, [], ◌∷◌, ◌++◌, length}
use attic_shogi.Prelude.Int.{ℤ}
use attic_shogi.Storage.Bytes.{Bytes, to_le_bytes}
use attic_shogi.Storage.Entry.{to_i16}
use attic_shogi.Storage.Book.{magic, flag_move_depth}

pub record RawMove : Type 0 where
  pub move16 : ℕ
  pub value : ℤ
  pub depth : ℕ

pub record RawRecord : Type 0 where
  pub packed : Bytes
  pub ply : ℕ
  pub moves : List RawMove

unfoldable pub move_bytes : (with_depth : Bool) → RawMove → Bytes
unfolding to_le_bytes
move_bytes with_depth m =
    to_le_bytes 2 m.move16
    ++ (to_le_bytes 2 (to_i16 m.value) ++ (if with_depth then to_le_bytes 2 m.depth else []))

unfoldable pub moves_bytes : (with_depth : Bool) → List RawMove → Bytes
unfolding move_bytes
moves_bytes with_depth [] = []
moves_bytes with_depth (m ∷ ms) = move_bytes with_depth m ++ moves_bytes with_depth ms

-- One record of the index, whose moves start at `moves_offset`.
unfoldable pub record_bytes : (moves_offset : ℕ) → RawRecord → Bytes
unfolding to_le_bytes
record_bytes moves_offset r =
    r.packed
    ++ (to_le_bytes 8 moves_offset
        ++ (to_le_bytes 2 r.ply ++ to_le_bytes 2 (length r.moves % 2 ^ 16)))

-- The index of the records, `moves_offset` bytes of moves having been written.
unfoldable pub index_bytes : (with_depth : Bool) (moves_offset : ℕ) → List RawRecord → Bytes
unfolding record_bytes moves_bytes
index_bytes with_depth moves_offset [] = []
index_bytes with_depth moves_offset (r ∷ rs) =
    record_bytes (moves_offset % 2 ^ 64) r
    ++ index_bytes with_depth (moves_offset + length (moves_bytes with_depth r.moves)) rs

unfoldable pub moves_region : (with_depth : Bool) → List RawRecord → Bytes
unfolding moves_bytes
moves_region with_depth [] = []
moves_region with_depth (r ∷ rs) = moves_bytes with_depth r.moves ++ moves_region with_depth rs

unfoldable pub build_ybb : List RawRecord → (with_depth : Bool) → Bytes
unfolding index_bytes moves_region to_le_bytes
build_ybb sorted with_depth =
    magic
    ++ (to_le_bytes 8 (length sorted % 2 ^ 64)
        ++ (to_le_bytes 8 (if with_depth then flag_move_depth else 0)
            ++ (index_bytes with_depth 0 sorted ++ moves_region with_depth sorted)))

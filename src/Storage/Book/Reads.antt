-- ===== src/Storage/Book/Reads.antt =====
-- The records an opened book reads, crates/attic-storage/src/book.rs, in both modes. What the
-- operating system's files do is a hypothesis: `Holds`.
use attic_shogi.Prelude.{
  ℕ, ◌+◌, ◌*◌, ◌%◌, ◌^◌, ◌≤◌, ◌<◌, ◌≡◌, refl, ap, sym, ◌∙◌, inl, inr, ◌⊎◌, [], none, some, length,
  arith, Bool,
}
use native.Mathlib.Decide.{dec_lt}
use attic_shogi.Prelude.Result.{Result, ok}
use attic_shogi.Storage.Bytes.{Bytes, slice, get_range}
use attic_shogi.Storage.Bytes.Laws.{get_range-in, get_range-out, checked-in}
use attic_shogi.Storage.Book.{
  index_record_size, BookError, IndexEntry, Book, memory, File, filled, unexpected_eof,
  parse_index_entry, read_index_entry, read_at, from_memory, cmp, less, map_some, probe, read_moves,
  decode_moves, move_record_size, has_move_depth,
}
use attic_shogi.Storage.Book.Open.{
  count_field, index_end, header_book, IsHeader, Opened, short, foreign, flagged, overflowing, cut,
  sound, from_memory-Opened,
}
use attic_shogi.Storage.Book.Find.{IsIndex, Found, probe-Found}

-- Record `i` of the index region of the bytes `d`.
unfoldable pub entry_at : Bytes → (i : ℕ) → IndexEntry
unfolding parse_index_entry
entry_at d i = parse_index_entry (slice (index_end i) index_record_size d)

-- The keys of the index ascend.
abbrev pub Ascends : Bytes → Type 0
Ascends d =
    (i j : ℕ) → i < j → j < count_field d → cmp (entry_at d i).packed (entry_at d j).packed ≡ less

pub from_memory-eq-ok :
    {d : Bytes} {b : Book}
    → from_memory d ≡ ok b
    → IsHeader d × (index_end (count_field d) ≤ length d) × (b ≡ header_book d (memory d))
from_memory-eq-ok {d} {b} e = on (from_memory-Opened d) e
  where
    on :
        {r : Result BookError Book}
        → Opened d r
        → r ≡ ok b
        → IsHeader d × (index_end (count_field d) ≤ length d) × (b ≡ header_book d (memory d))
    on (short _) h = cc
    on (foreign _ _) h = cc
    on (flagged _ _ _) h = cc
    on (overflowing _ _ _ _) h = cc
    on (cut _ _) h = cc
    on (sound v w) h = (v, w, cc)

pub from_memory-ok :
    {d : Bytes}
    → IsHeader d
    → index_end (count_field d) ≤ length d
    → from_memory d ≡ ok (header_book d (memory d))
from_memory-ok {d} v w = on (from_memory-Opened d)
  where
    on : {r : Result BookError Book} → Opened d r → r ≡ ok (header_book d (memory d))
    on (short a) = let b = v.whole in absurd (omega arith)
    on (foreign _ a) = absurd (a v.magic)
    on (flagged _ _ a) = absurd (a v.flags)
    on (overflowing _ _ _ a) = let b = v.fits in absurd (omega arith)
    on (cut _ a) = absurd (omega arith)
    on (sound _ _) = refl

-- The offsets of a record of the index do not wrap.
pub offset_lem :
    (n i : ℕ)
    → i < n
    → index_end n < 2 ^ 64
    → ((32 + i * 44) % 2 ^ 64 ≡ 32 + i * 44) × ((32 + i * 44 + 44) % 2 ^ 64 ≡ 32 + i * 44 + 44)
offset_lem n i h f = (omega arith, omega arith)

pub read_index_entry-memory :
    (d : Bytes)
    → IsHeader d
    → index_end (count_field d) ≤ length d
    → (i : ℕ) → i < count_field d
    → read_index_entry (header_book d (memory d)) i ≡ ok (some (entry_at d i))
unfolding read_index_entry entry_at
read_index_entry-memory d v w i h =
    let (p, q) = offset_lem (count_field d) i h v.fits in
    ap (λ r. ok (map_some parse_index_entry r))
      (ap (λ t. get_range d t ((t + index_record_size) % 2 ^ 64)) p
        ∙ ap (get_range d (index_end i)) q
        ∙ get_range-in d (index_end i) index_record_size (omega arith))

-- A list of moves within the bytes is decoded.
pub read_moves-memory :
    (d : Bytes) (e : IndexEntry)
    → length d < 2 ^ 64
    → (let b = header_book d (memory d) in
        index_end (count_field d) + e.moves_offset + e.move_count * move_record_size b ≤ length d)
    → (let b = header_book d (memory d) in
        read_moves b e
        ≡ ok (
            some (
              decode_moves
                (slice
                  (index_end (count_field d) + e.moves_offset)
                  (e.move_count * move_record_size b)
                  d)
                e.move_count
                (move_record_size b)
                (has_move_depth b))))
unfolding read_moves
read_moves-memory d e small h =
    let b = header_book d (memory d) in
    let start = index_end (count_field d) + e.moves_offset in
    let total = e.move_count * move_record_size b in
    rw
      (
        read_moves,
        checked-in start (omega arith),
        checked-in (start + total) (omega arith),
        get_range-in d start total h,
      )
      refl

pub from_memory-IsIndex :
    {d : Bytes}
    → IsHeader d
    → index_end (count_field d) ≤ length d
    → Ascends d
    → IsIndex (header_book d (memory d)) (entry_at d)
from_memory-IsIndex v w a =
    let f = v.fits in
    record { small = omega arith; reads = read_index_entry-memory _ v w; ascends = a }

-- If bytes open as a book in memory and the keys of its index ascend, a probe gives the answer of
-- the record with the key, and a miss where no record has it.
pub from_memory-Found :
    (d : Bytes) (b : Book)
    → from_memory d ≡ ok b
    → Ascends d
    → (packed : Bytes) (game_ply : ℕ) (ignore : Bool)
    → Found b (entry_at d) packed game_ply ignore (probe b packed game_ply ignore)
from_memory-Found d b e a packed game_ply ignore =
    let (v, w, q) = from_memory-eq-ok e in
    rw q (probe-Found (from_memory-IsIndex v w a) packed game_ply ignore)

-- What a file that holds the bytes `d` does: a seek to an offset of the file system's range
-- succeeds, a read of nothing is filled wherever it starts, and any other read is filled with the
-- bytes there or meets the end of the file.
pub record Holds (d : Bytes) (f : File) : Type 0 where
  pub seek : (offset : ℕ) → offset < 2 ^ 63 → f.seek offset ≡ none
  pub read :
      (offset n : ℕ) → offset + n ≤ length d → f.read_exact offset n ≡ filled (slice offset n d)
  pub read_past :
      (offset n : ℕ) → length d < offset + n → 0 < n → f.read_exact offset n ≡ unexpected_eof
  pub read_none : (offset : ℕ) → f.read_exact offset 0 ≡ filled []

-- A read within the reach of seeks is what the range of the bytes is.
pub read_at_lem :
    {d : Bytes} {f : File}
    → Holds d f
    → (offset n : ℕ) → offset < 2 ^ 63
    → (offset ≤ length d) ⊎ (0 < n)
    → read_at f offset n ≡ ok (get_range d offset (offset + n))
unfolding read_at
read_at_lem {d} {f} v offset n p c = elim (dec_lt (length d) (offset + n)) [
  | no q ↦
      rw (read_at, v.seek offset p, v.read offset n (omega arith))
        (ap ok (sym (get_range-in d offset n (omega arith))))
  | yes q ↦
      rw (read_at, v.seek offset p, v.read_past offset n q (some_bytes c q))
        (ap ok (sym (get_range-out d offset n q)))
]
  where
    some_bytes : (offset ≤ length d) ⊎ (0 < n) → length d < offset + n → 0 < n
    some_bytes (inl a) b = omega arith
    some_bytes (inr a) b = a

-- ===== src/Storage/Book/RoundTrip.antt =====
-- A book that was written, opened and probed: `build_ybb`, `from_memory` and `probe` of
-- crates/attic-storage/src/book.rs.
use attic_shogi.Prelude.{
  ℕ, ◌+◌, ◌^◌, ◌≤◌, ◌<◌, ◌≡◌, refl, sym, ap, ap₂, ◌∙◌, Bool, true, false, ==_refl, List, map,
  length, get_elem?, some, arith,
}
use attic_shogi.Prelude.Result.{ok}
use attic_shogi.Storage.Book.{
  Book, memory, IndexEntry, answer, read_moves, probe, from_memory, cmp, less,
}
use attic_shogi.Storage.Book.Open.{count_field, index_end, header_book}
use attic_shogi.Storage.Book.Reads.{entry_at, Ascends, from_memory-IsIndex, from_memory-ok}
use attic_shogi.Storage.Book.Find.{probe-hit}
use attic_shogi.Storage.Book.Build.{RawRecord, build_ybb}
use attic_shogi.Storage.Book.Decode.{All, IsRecord, book_move, entry_of}
use attic_shogi.Storage.Book.Layout.{before, get_elem?-in, get_elem?-lt, moves_region-within}
use attic_shogi.Storage.Book.Built.{
  build-IsHeader, build-index_end, build-count, build-entry_at, build-read_moves,
}

-- The records are in the strict order of their keys, as the sort leaves records of distinct keys.
abbrev pub Sorted : List RawRecord → Type 0
Sorted rs =
    (i j : ℕ) (q r : RawRecord)
    → i < j
    → get_elem? rs i ≡ some q
    → get_elem? rs j ≡ some r
    → cmp q.packed r.packed ≡ less

pub build-Ascends :
    (rs : List RawRecord) (w : Bool)
    → All IsRecord rs
    → length (build_ybb rs w) < 2 ^ 64
    → Sorted rs
    → Ascends (build_ybb rs w)
build-Ascends rs w v fits s i j h k =
    let c = build-count rs w v fits in
    let (q, e) = get_elem?-in rs i (omega arith) in
    let (r, f) = get_elem?-in rs j (omega arith) in
    ap₂ (λ (x y : IndexEntry). cmp x.packed y.packed) (build-entry_at rs w v fits i q e)
      (build-entry_at rs w v fits j r f)
    ∙ s i j q r h e f

-- The moves of every record start within the file.
pub build-offsets :
    (rs : List RawRecord) (w : Bool)
    → All IsRecord rs
    → length (build_ybb rs w) < 2 ^ 64
    → (i : ℕ) → i < count_field (build_ybb rs w)
    → index_end (count_field (build_ybb rs w)) + (entry_at (build_ybb rs w) i).moves_offset
      ≤ length (build_ybb rs w)
build-offsets rs w v fits i h =
    let c = build-count rs w v fits in
    let stop = build-index_end rs w v fits in
    let (r, e) = get_elem?-in rs i (omega arith) in
    let inside = moves_region-within w rs i e in rw (build-entry_at rs w v fits i r e) (omega arith)

answer_at_ply :
    (b : Book) (x : IndexEntry) (ignore : Bool) → answer b x x.ply ignore ≡ read_moves b x
unfolding answer
answer_at_ply b x true = refl
answer_at_ply b x false = rw (answer, ==_refl x.ply) refl

-- Take records whose fields fit their widths, in the strict order of their keys, that make a file of
-- fewer than 2 ^ 64 bytes. The file opens in memory, and a probe for the key of a record at its ply
-- gives the moves of that record, in their order, with a depth of 0 where the file stores none.
pub probe-build_ybb :
    (rs : List RawRecord) (with_depth : Bool)
    → All IsRecord rs
    → Sorted rs
    → length (build_ybb rs with_depth) < 2 ^ 64
    → (i : ℕ) (r : RawRecord) → get_elem? rs i ≡ some r
    → (ignore : Bool)
    → (b : Book) × (from_memory (build_ybb rs with_depth) ≡ ok b)
      × (probe b r.packed r.ply ignore ≡ some (ok (some (map (book_move with_depth) r.moves))))
probe-build_ybb rs w v s fits i r e ignore =
    let header = build-IsHeader rs w v fits in
    let stop = build-index_end rs w v fits in
    let c = build-count rs w v fits in
    let place = get_elem?-lt rs i e in
    let same = build-entry_at rs w v fits i r e in
    let b = header_book (build_ybb rs w) (memory (build_ybb rs w)) in
    let index = from_memory-IsIndex header (omega arith) (build-Ascends rs w v fits s) in
    (
      b,
      from_memory-ok header (omega arith),
      ap (λ (x : IndexEntry). probe b x.packed r.ply ignore) (sym same)
          ∙ probe-hit index i r.ply ignore (omega arith)
          ∙ ap (λ x. some (answer b x r.ply ignore)) same
          ∙ ap some (
              answer_at_ply b (entry_of (before w i rs) r) ignore
              ∙ build-read_moves rs w v fits i r e),
    )

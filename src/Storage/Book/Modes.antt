-- ===== src/Storage/Book/Modes.antt =====
-- The two read modes of a book, crates/attic-storage/src/book.rs: `open_on_the_fly` against
-- `from_memory`, and what their probes give.
use attic_shogi.Prelude.{
  ℕ, zero, suc, ◌+◌, ◌-◌, ◌*◌, ◌/◌, ◌^◌, ◌≤◌, ◌<◌, ◌≡◌, refl, sym, ap, ◌∙◌, Bool, not, ◌&&◌, ◌==◌,
  if◌then◌else◌, inl, inr, Option, none, some, arith, length,
}
use native.Mathlib.Decide.{dec_lt}
use attic_shogi.Prelude.Result.{Result, ok, ◌>>=◌}
use attic_shogi.Storage.Bytes.{Bytes, slice}
use attic_shogi.Storage.Bytes.Laws.{get_range-in, get_range-out, checked-in, checked-out}
use attic_shogi.Storage.Book.{
  Book, BookError, IndexEntry, cmp, read_index_entry, answer, probe_loop, probe, probe_fuel, memory,
  file, File, read_moves, read_at, map_some, parse_index_entry, open_on_the_fly, opened, read_head,
  header_size, index_record_size, from_memory, move_record_size, has_move_depth,
}
use attic_shogi.Storage.Book.Open.{
  index_end, count_field, header_book, IsHeader, parse_header-ok, moves_base_of-fits,
}
use attic_shogi.Storage.Book.Reads.{
  entry_at, Holds, read_at_lem, from_memory-eq-ok, read_index_entry-memory, offset_lem,
}
use attic_shogi.Storage.Book.Rounds.{
  Order-cases, loop-empty, loop-less, loop-greater, loop-equal, ltb-false,
}

-- Two books of as many records that read alike at every index, and answer alike, probe alike.
module _ (b c : Book) (n : ℕ) (entry : ℕ → IndexEntry) (packed : Bytes) (game_ply : ℕ)
    (ignore : Bool) (small : n < 2 ^ 63)
    (reads : (i : ℕ) → i < n → read_index_entry b i ≡ ok (some (entry i)))
    (reads' : (i : ℕ) → i < n → read_index_entry c i ≡ ok (some (entry i)))
    (answers : (i : ℕ)
      → i < n
      → answer b (entry i) game_ply ignore ≡ answer c (entry i) game_ply ignore) where
  pub probe_loop_eq :
      (fuel left right : ℕ)
      → right ≤ n
      → probe_loop fuel b packed game_ply ignore left right
        ≡ probe_loop fuel c packed game_ply ignore left right
  unfolding probe_loop
  probe_loop_eq zero left right w = refl
  probe_loop_eq (suc fuel) left right w = elim (dec_lt left right) [
    | no p ↦
        loop-empty b packed game_ply ignore fuel left right (ltb-false left right (omega arith))
        ∙ sym (
            loop-empty c packed game_ply ignore fuel left right
              (ltb-false left right (omega arith)))
    | yes p ↦
        let s : right < 2 ^ 63 = omega arith in
        let m = left + (right - left) / 2 in
        let h : m < n = omega arith in
        elim (Order-cases (cmp packed (entry m).packed)) [
          | inl o ↦
              loop-less b packed game_ply ignore fuel left right p s (entry m) (reads m h) o
              ∙ probe_loop_eq fuel left m (omega arith)
              ∙ sym
                  (loop-less c packed game_ply ignore fuel left right p s (entry m) (reads' m h) o)
          | inr (inl o) ↦
              loop-equal b packed game_ply ignore fuel left right p s (entry m) (reads m h) o
              ∙ ap some (answers m h)
              ∙ sym
                  (loop-equal c packed game_ply ignore fuel left right p s (entry m) (reads' m h) o)
          | inr (inr o) ↦
              loop-greater b packed game_ply ignore fuel left right p s (entry m) (reads m h) o
              ∙ probe_loop_eq fuel (m + 1) right w
              ∙ sym (
                  loop-greater c packed game_ply ignore fuel left right p s (entry m) (reads' m h)
                    o)
        ]
  ]

-- A book on the bytes `d` and one on two files that hold them.
module _ (d : Bytes) (f g : File) (hf : Holds d f) (hg : Holds d g) (small : length d < 2 ^ 63)
    (v : IsHeader d) (w : index_end (count_field d) ≤ length d) where
  read_index_entry-file :
      (i : ℕ)
      → i < count_field d
      → read_index_entry (header_book d (file f g)) i ≡ ok (some (entry_at d i))
  unfolding read_index_entry entry_at
  read_index_entry-file i h =
      let (p, q) = offset_lem (count_field d) i h v.fits in
      ap (λ t. read_at f t index_record_size >>= λ buf. ok (map_some parse_index_entry buf)) p
      ∙ ap
          (λ (r : Result BookError (Option Bytes)).
            r >>= λ buf. ok (map_some parse_index_entry buf))
          (read_at_lem hf (index_end i) index_record_size (omega arith) (inl (omega arith))
            ∙ ap ok (get_range-in d (index_end i) index_record_size (omega arith)))

  -- A list of moves that starts within the bytes is read alike.
  read_moves-file :
      (e : IndexEntry)
      → index_end (count_field d) + e.moves_offset ≤ length d
      → read_moves (header_book d (file f g)) e ≡ read_moves (header_book d (memory d)) e
  unfolding read_moves move_record_size has_move_depth
  read_moves-file e h =
      rw
        (
          read_moves,
          checked-in (index_end (count_field d) + e.moves_offset) (omega arith),
          read_at_lem hg (index_end (count_field d) + e.moves_offset)
              (e.move_count * move_record_size (header_book d (memory d))) (omega arith) (inl h),
        )
        (let stop =
            index_end (count_field d)
            + e.moves_offset
            + e.move_count * move_record_size (header_book d (memory d)) in
          elim (dec_lt stop (2 ^ 64)) [
            | yes p ↦ rw (checked-in stop p) refl
            | no p ↦
                rw
                  (
                    checked-out stop (omega arith),
                    get_range-out d (index_end (count_field d) + e.moves_offset)
                        (e.move_count * move_record_size (header_book d (memory d))) (omega arith),
                  )
                  refl
          ])

  read_head-file : read_head f ≡ ok (slice 0 header_size d)
  unfolding read_head
  read_head-file = let whole = v.whole in rw (read_head, hf.read 0 header_size (omega arith)) refl

  open_on_the_fly-file : open_on_the_fly (ok f) (ok g) ≡ ok (header_book d (file f g))
  unfolding open_on_the_fly read_head opened
  open_on_the_fly-file =
      rw
        (
          open_on_the_fly,
          read_head-file,
          parse_header-ok v,
          moves_base_of-fits (count_field d) v.fits,
        )
        refl

  answer-file :
      (e : IndexEntry) (game_ply : ℕ) (ignore : Bool)
      → index_end (count_field d) + e.moves_offset ≤ length d
      → answer (header_book d (file f g)) e game_ply ignore
        ≡ answer (header_book d (memory d)) e game_ply ignore
  unfolding answer
  answer-file e game_ply ignore h =
      ap (λ r. if not ignore && not (e.ply == game_ply) then ok none else r) (read_moves-file e h)

  probe-file :
      (packed : Bytes) (game_ply : ℕ) (ignore : Bool)
      → ((i : ℕ)
          → i < count_field d
          → index_end (count_field d) + (entry_at d i).moves_offset ≤ length d)
      → probe (header_book d (file f g)) packed game_ply ignore
        ≡ probe (header_book d (memory d)) packed game_ply ignore
  unfolding probe
  probe-file packed game_ply ignore o =
      let fits = v.fits in
      probe_loop_eq (header_book d (file f g)) (header_book d (memory d)) (count_field d)
        (entry_at d) packed game_ply ignore (omega arith) read_index_entry-file
        (read_index_entry-memory d v w) (λ i p. answer-file (entry_at d i) game_ply ignore (o i p))
        probe_fuel 0 (count_field d) (omega arith)

-- If bytes of fewer than 2 ^ 63 open as a book in memory, and the moves of each record start within
-- them, then two files that hold the bytes open as a book on the fly, and both books give the same
-- result to every probe.
pub open_on_the_fly-from_memory :
    (d : Bytes) (f g : File) (b : Book)
    → Holds d f
    → Holds d g
    → length d < 2 ^ 63
    → from_memory d ≡ ok b
    → ((i : ℕ)
        → i < count_field d
        → index_end (count_field d) + (entry_at d i).moves_offset ≤ length d)
    → (packed : Bytes) (game_ply : ℕ) (ignore : Bool)
    → (c : Book) × (open_on_the_fly (ok f) (ok g) ≡ ok c)
      × (probe c packed game_ply ignore ≡ probe b packed game_ply ignore)
open_on_the_fly-from_memory d f g b hf hg small e o packed game_ply ignore =
    let (v, w, q) = from_memory-eq-ok e in
    (
      header_book d (file f g),
      open_on_the_fly-file d f g hf hg small v w,
      probe-file d f g hf hg small v w packed game_ply ignore o
          ∙ ap (λ c. probe c packed game_ply ignore) (sym q),
    )

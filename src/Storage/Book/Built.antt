-- ===== src/Storage/Book/Built.antt =====
-- The fields of a book that was written, as they are read back: `build_ybb` and the reader of
-- crates/attic-storage/src/book.rs.
use attic_shogi.Prelude.{
  ℕ, ◌+◌, ◌*◌, ◌%◌, ◌^◌, ◌≤◌, ◌<◌, ◌≡◌, refl, sym, ap, ap₂, ◌∙◌, Bool, true, false, if◌then◌else◌,
  not, ◌==◌, List, ◌++◌, map, length, get_elem?, some, arith, bit_and,
}
use attic_shogi.Prelude.Result.{ok}
use attic_shogi.Storage.Bytes.{Bytes, slice, to_le_bytes}
use attic_shogi.Storage.Bytes.Laws.{length-++, slice_skip, read_u64_le-to_le_bytes}
use attic_shogi.Storage.Book.{
  magic, flag_move_depth, memory, read_moves, parse_index_entry, move_record_size, has_move_depth,
  decode_moves,
}
use attic_shogi.Storage.Book.Open.{
  magic_field, count_field, flags_field, unknown_bits, index_end, header_book, IsHeader,
}
use attic_shogi.Storage.Book.Reads.{entry_at, read_moves-memory}
use attic_shogi.Storage.Book.Build.{RawRecord, moves_bytes, index_bytes, moves_region, build_ybb}
use attic_shogi.Storage.Book.Decode.{
  All, IsRecord, book_move, record_size, entry_of, decode_moves-moves_bytes, length-moves_bytes,
  parse_index_entry-record_bytes,
}
use attic_shogi.Storage.Book.Layout.{
  before, All-get, length-index_bytes, index_bytes-at, moves_region-at, moves_region-within,
}

module _ (rs : List RawRecord) (w : Bool) (v : All IsRecord rs)
    (fits : length (build_ybb rs w) < 2 ^ 64) where
  abbrev d : Bytes
  d = build_ybb rs w

  abbrev region : Bytes
  region = moves_region w rs

  abbrev index : Bytes
  index = index_bytes w 0 rs

  abbrev flags : ℕ
  flags = if w then flag_move_depth else 0

  -- The header, and what follows it.
  pub header : Bytes
  header = magic ++ (to_le_bytes 8 (length rs % 2 ^ 64) ++ to_le_bytes 8 flags)

  pub build-header : d ≡ header ++ (index ++ region)
  unfolding build_ybb header to_le_bytes
  build-header = refl

  length-header : length header ≡ 32
  unfolding header to_le_bytes
  length-header = refl

  pub build-length : length d ≡ 32 + (length rs * 44 + length region)
  build-length =
      ap length build-header
      ∙ length-++ header (index ++ region)
      ∙ ap₂ ◌+◌ length-header
          (length-++ index region ∙ ap (λ t. t + length region) (length-index_bytes w 0 rs v))

  pub build-count : count_field d ≡ length rs
  unfolding build_ybb to_le_bytes
  build-count =
      let l = build-length in
      read_u64_le-to_le_bytes (length rs % 2 ^ 64) (omega arith) ∙ small (length rs) (omega arith)
    where
      small : (a : ℕ) → a < 2 ^ 64 → a % 2 ^ 64 ≡ a
      small a p = omega arith

  pub build-flags : flags_field d ≡ flags
  unfolding build_ybb to_le_bytes
  build-flags = read_u64_le-to_le_bytes flags (bound w)
    where
      bound : (b : Bool) → (if b then flag_move_depth else 0) < 2 ^ 64
      bound true = omega arith
      bound false = omega arith

  pub build-magic : magic_field d ≡ magic
  unfolding build_ybb
  build-magic = refl

  pub build-IsHeader : IsHeader d
  build-IsHeader =
      let l = build-length in
      let c = build-count in
      record {
        whole = omega arith;
        magic = build-magic;
        flags = ap unknown_bits build-flags ∙ known w;
        fits = omega arith;
      }
    where
      known : (b : Bool) → unknown_bits (if b then flag_move_depth else 0) ≡ 0
      known true = refl
      known false = refl

  pub build-index_end : index_end (count_field d) + length region ≡ length d
  build-index_end = let l = build-length in let c = build-count in omega arith

  pub build-depth : has_move_depth (header_book d (memory d)) ≡ w
  unfolding has_move_depth
  build-depth = ap (λ f. not (bit_and f flag_move_depth == 0)) build-flags ∙ known w
    where
      known : (b : Bool) → not (bit_and (if b then flag_move_depth else 0) flag_move_depth == 0) ≡ b
      known true = refl
      known false = refl

  pub build-size : move_record_size (header_book d (memory d)) ≡ record_size w
  unfolding move_record_size
  build-size = ap (λ b. if b then 6 else 4) build-depth

  module _ (i : ℕ) (r : RawRecord) (e : get_elem? rs i ≡ some r) where
    -- The entry of record `i`, as the index has it.
    pub build-entry_at : entry_at d i ≡ entry_of (before w i rs) r
    unfolding entry_at
    build-entry_at =
        let inside = moves_region-within w rs i e in
        let l = build-length in
        ap parse_index_entry (
          ap (slice (32 + i * 44) 44) build-header
          ∙ slice_skip header (index ++ region) 32 (i * 44) 44 length-header
          ∙ index_bytes-at w 0 rs i region v e)
        ∙ parse_index_entry-record_bytes ((0 + before w i rs) % 2 ^ 64) r (omega arith)
            (All-get IsRecord rs i v e)
        ∙ ap (λ o. entry_of o r) (no_wrap (before w i rs) (omega arith))
      where
        no_wrap : (a : ℕ) → a < 2 ^ 64 → (0 + a) % 2 ^ 64 ≡ a
        no_wrap a p = omega arith

    -- The moves of record `i`.
    pub build-moves :
        slice (index_end (count_field d) + before w i rs) (length (moves_bytes w r.moves)) d
        ≡ moves_bytes w r.moves
    build-moves =
        ap (λ t. slice t (length (moves_bytes w r.moves)) d) (places (count_field d) build-count)
        ∙ ap (slice (32 + (length rs * 44 + before w i rs)) (length (moves_bytes w r.moves)))
            build-header
        ∙ slice_skip header (index ++ region) 32 (length rs * 44 + before w i rs)
            (length (moves_bytes w r.moves)) length-header
        ∙ slice_skip index region (length rs * 44) (before w i rs) (length (moves_bytes w r.moves))
            (length-index_bytes w 0 rs v)
        ∙ moves_region-at w rs i e
      where
        places :
            (n : ℕ)
            → n ≡ length rs
            → index_end n + before w i rs ≡ 32 + (length rs * 44 + before w i rs)
        places n c = omega arith

    pub build-read_moves :
        read_moves (header_book d (memory d)) (entry_of (before w i rs) r)
        ≡ ok (some (map (book_move w) r.moves))
    build-read_moves =
        let b = header_book d (memory d) in
        let inside = moves_region-within w rs i e in
        let total = length-moves_bytes w r.moves in
        let stop = build-index_end in
        let within : index_end (count_field d) + before w i rs + length r.moves * move_record_size b
            ≤ length d =
          rw build-size (omega arith) in
        read_moves-memory d (entry_of (before w i rs) r) fits within
        ∙ ap (λ t. ok (some t))
            (ap₂
                (λ n h.
                  decode_moves
                    (slice (index_end (count_field d) + before w i rs) (length r.moves * n) d)
                    (length r.moves) n h)
                build-size build-depth
              ∙ ap (λ t. decode_moves t (length r.moves) (record_size w) w)
                  (ap (λ n. slice (index_end (count_field d) + before w i rs) n d) (sym total)
                    ∙ build-moves)
              ∙ decode_moves-moves_bytes w r.moves (All-get IsRecord rs i v e).moves)

-- ===== src/Storage/Book/Open.antt =====
-- What opening a book checks, crates/attic-storage/src/book.rs: the header on every branch, and what
-- an opened book has.
use attic_shogi.Prelude.{
  ℕ, ◌+◌, ◌-◌, ◌*◌, ◌^◌, ◌≤◌, ◌<◌, ◌≡◌, ◌≢◌, ◌⊎◌, refl, ap, ◌∙◌, inl, inr, bit_and, true, false,
  not, ◌==◌, ltb, if◌then◌else◌, eq_of_==, Bool-cases, length, arith,
}
use native.Mathlib.Decide.{dec_lt}
use attic_shogi.Prelude.Result.{Result, ok, err, ◌>>=◌}
use attic_shogi.Storage.Bytes.{Bytes, slice, read_u64_le}
use attic_shogi.Storage.Bytes.Laws.{
  get_range-in, get_range-out, slice-slice, checked-in, checked-out,
}
use attic_shogi.Storage.Book.{
  header_size, index_record_size, known_flags, magic, is_magic, BookError, truncated_header,
  bad_magic, unknown_flags, record_count_overflow, truncated_index, Book, Source, memory, cmp, less,
  equal, greater, Order, parse_header, moves_base_of, from_memory,
}
use attic_shogi.Storage.Book.Keys.{eq_of_cmp, less-ne, greater-ne}

-- The fields of the header of a file.
abbrev pub magic_field : Bytes → Bytes
magic_field d = slice 0 16 d

abbrev pub count_field : Bytes → ℕ
count_field d = read_u64_le (slice 16 8 d)

abbrev pub flags_field : Bytes → ℕ
flags_field d = read_u64_le (slice 24 8 d)

-- Where the moves of a book of `n` records start.
abbrev pub index_end : ℕ → ℕ
index_end n = header_size + n * index_record_size

abbrev pub unknown_bits : ℕ → ℕ
unknown_bits flags = bit_and flags (2 ^ 64 - 1 - known_flags)

abbrev pub header_book : Bytes → Source → Book
header_book d s = record {
  record_count = count_field d;
  flags = flags_field d;
  moves_base = index_end (count_field d);
  source = s;
}

-- The header is one this reader knows, and its index region is a `u64`.
pub record IsHeader (d : Bytes) : Type 0 where
  pub whole : header_size ≤ length d
  pub magic : magic_field d ≡ magic
  pub flags : unknown_bits (flags_field d) ≡ 0
  pub fits : index_end (count_field d) < 2 ^ 64

-- The results of opening the bytes `d`, each with the condition under which it is given.
pub data Opened (d : Bytes) : Result BookError Book → Type 0 where
  short : length d < header_size → Opened d (err truncated_header)
  foreign : header_size ≤ length d → magic_field d ≢ magic → Opened d (err bad_magic)
  flagged :
      header_size ≤ length d
      → magic_field d ≡ magic
      → unknown_bits (flags_field d) ≢ 0
      → Opened d (err (unknown_flags (flags_field d)))
  overflowing :
      header_size ≤ length d
      → magic_field d ≡ magic
      → unknown_bits (flags_field d) ≡ 0
      → 2 ^ 64 ≤ index_end (count_field d)
      → Opened d (err record_count_overflow)
  cut : IsHeader d → length d < index_end (count_field d) → Opened d (err truncated_index)
  sound :
      IsHeader d → index_end (count_field d) ≤ length d → Opened d (ok (header_book d (memory d)))

is_magic-cases :
    (b : Bytes) → ((is_magic b ≡ true) × (b ≡ magic)) ⊎ ((is_magic b ≡ false) × (b ≢ magic))
is_magic-cases b = on (cmp b magic) refl
  where
    on :
        (o : Order)
        → cmp b magic ≡ o
        → ((is_magic b ≡ true) × (b ≡ magic)) ⊎ ((is_magic b ≡ false) × (b ≢ magic))
    on equal e = inl (rw (is_magic, e) refl, eq_of_cmp b magic e)
    on less e = inr (rw (is_magic, e) refl, less-ne b magic e)
    on greater e = inr (rw (is_magic, e) refl, greater-ne b magic e)

pub moves_base_of-fits : (n : ℕ) → index_end n < 2 ^ 64 → moves_base_of n ≡ ok (index_end n)
unfolding moves_base_of
moves_base_of-fits n h =
    rw (checked-in (n * 44) (omega arith), checked-in (n * 44 + 32) (omega arith))
      (ap ok (omega arith))

moves_base_of-overflow :
    (n : ℕ) → 2 ^ 64 ≤ index_end n → moves_base_of n ≡ err record_count_overflow
unfolding moves_base_of
moves_base_of-overflow n h = elim (dec_lt (n * 44) (2 ^ 64)) [
  | yes p ↦ rw (checked-in (n * 44) p, checked-out (n * 44 + 32) (omega arith)) refl
  | no p ↦ rw (checked-out (n * 44) (omega arith)) refl
]

-- The header as the slice of the first 32 bytes is read.
parse_header_lem :
    (d : Bytes)
    → parse_header (slice 0 header_size d) ≡ (
        if not (is_magic (magic_field d))
        then err bad_magic
        else if not (unknown_bits (flags_field d) == 0)
        then err (unknown_flags (flags_field d))
        else ok (count_field d, flags_field d))
unfolding parse_header
parse_header_lem d =
    rw
      (
        slice-slice 0 16 32 d (omega arith),
        slice-slice 16 8 32 d (omega arith),
        slice-slice 24 8 32 d (omega arith),
      )
      refl

-- A known header, by the size of its index region.
body-Opened :
    (d : Bytes)
    → header_size ≤ length d
    → magic_field d ≡ magic
    → unknown_bits (flags_field d) ≡ 0
    → Opened d (
        moves_base_of (count_field d) >>= λ base.
        if ltb (length d) base
        then err truncated_index
        else ok (record {
          record_count = count_field d;
          flags = flags_field d;
          moves_base = base;
          source = memory d;
        }))
body-Opened d w m f = elim (dec_lt (index_end (count_field d)) (2 ^ 64)) [
  | no p ↦
      rw (moves_base_of-overflow (count_field d) (omega arith)) (overflowing w m f (omega arith))
  | yes p ↦
      rw (moves_base_of-fits (count_field d) p)
        (elim (Bool-cases (ltb (length d) (index_end (count_field d)))) [
          | inl e ↦ rw e (cut (header p) (ground arith))
          | inr e ↦ rw e (sound (header p) (ground arith))
        ])
]
  where
    header : index_end (count_field d) < 2 ^ 64 → IsHeader d
    header p = record { whole = w; magic = m; flags = f; fits = p }

-- Opening bytes in memory never panics. It gives each error under its own condition, in the order of
-- the checks (length, magic, flags, overflow of the index, length of the index), and else the book of
-- the header's fields.
pub from_memory-Opened : (d : Bytes) → Opened d (from_memory d)
unfolding from_memory
from_memory-Opened d = elim (dec_lt (length d) header_size) [
  | yes p ↦ rw (get_range-out d 0 header_size p) (short p)
  | no p ↦
      let w : header_size ≤ length d = omega arith in
      rw (get_range-in d 0 header_size w, parse_header_lem d)
        (elim (is_magic-cases (magic_field d)) [
          | inr (e, m) ↦ rw e (foreign w m)
          | inl (e, m) ↦ rw e (elim (Bool-cases (unknown_bits (flags_field d) == 0)) [
            | inr z ↦ rw z (
                flagged w m
                  (λ h. let k : (unknown_bits (flags_field d) == 0) ≡ true = rw h refl in cc))
            | inl z ↦ rw z (body-Opened d w m (eq_of_== _ _ z))
          ])
        ])
]

pub parse_header-ok :
    {d : Bytes}
    → IsHeader d
    → parse_header (slice 0 header_size d) ≡ ok (count_field d, flags_field d)
parse_header-ok {d} v = elim (is_magic-cases (magic_field d)) [
  | inr (e, m) ↦ absurd (m v.magic)
  | inl (e, m) ↦
      let z : (unknown_bits (flags_field d) == 0) ≡ true = rw v.flags refl in
      parse_header_lem d ∙ rw (e, z) refl
]

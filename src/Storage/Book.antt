-- ===== src/Storage/Book.antt =====
-- The opening-book reader of crates/attic-storage/src/book.rs. A file is a byte string: an in-memory
-- book holds it, an on-the-fly book holds two handles, whose `seek` and `read_exact` are the
-- operating system's and so are parameters. A `usize` has 64 bits.
pub mod Keys
pub mod Rounds
pub mod Search
pub mod Find
pub mod Open
pub mod Reads
pub mod Modes
pub mod Build
pub mod Decode
pub mod Layout
pub mod Built
pub mod RoundTrip
mod Examples
use attic_shogi.Prelude.{
  ℕ, zero, suc, ◌+◌, ◌-◌, ◌*◌, ◌/◌, ◌%◌, ◌^◌, bit_and, Bool, true, false, not, ◌&&◌, ◌==◌, ltb,
  if◌then◌else◌, List, [], ◌∷◌, Option, none, some, length,
}
use attic_shogi.Prelude.Int.{ℤ}
use attic_shogi.Prelude.Result.{Result, ok, err, ◌>>=◌}
use attic_shogi.Storage.Bytes.{Bytes, slice, get_range, checked, read_u16_le, read_u64_le}
use attic_shogi.Storage.Entry.{of_i16}

-- `MAGIC`, the bytes of "YANE-BINBOOK-V1\0".
abbrev pub magic : Bytes
magic = 89 ∷ 65 ∷ 78 ∷ 69 ∷ 45 ∷ 66 ∷ 73 ∷ 78 ∷ 66 ∷ 79 ∷ 79 ∷ 75 ∷ 45 ∷ 86 ∷ 49 ∷ 0 ∷ []

abbrev pub header_size : ℕ
header_size = 32

abbrev pub index_record_size : ℕ
index_record_size = 44

abbrev pub flag_move_depth : ℕ
flag_move_depth = 1

abbrev pub known_flags : ℕ
known_flags = flag_move_depth

pub record BookMove : Type 0 where
  pub move16 : ℕ
  pub value : ℤ
  pub depth : ℕ
  pub count : ℕ

-- An I/O error is its number.
pub data BookError : Type 0 where
  truncated_header bad_magic record_count_overflow truncated_index : BookError
  unknown_flags io : ℕ → BookError

pub record IndexEntry : Type 0 where
  pub packed : Bytes
  pub moves_offset : ℕ
  pub ply : ℕ
  pub move_count : ℕ

-- What `read_exact` gives: the bytes that fill the buffer, a clean end of file, or another error.
pub data Read : Type 0 where
  filled : Bytes → Read
  unexpected_eof : Read
  failed : ℕ → Read

-- An open file: `seek` to an offset, with the error it gives if any, and `read_exact` at an offset.
pub record File : Type 0 where
  pub seek : ℕ → Option ℕ
  pub read_exact : (offset len : ℕ) → Read

pub data Source : Type 0 where
  memory : Bytes → Source
  file : (index moves : File) → Source

pub record Book : Type 0 where
  pub record_count : ℕ
  pub flags : ℕ
  pub moves_base : ℕ
  pub source : Source

-- The slice comparison `a[..].cmp(&b[..])`, byte by byte.
pub data Order : Type 0 where
  less equal greater : Order

unfoldable pub cmp_byte : ℕ → ℕ → Order → Order
cmp_byte a b o = if ltb a b then less else if ltb b a then greater else o

unfoldable pub cmp : Bytes → Bytes → Order
unfolding cmp_byte
cmp [] [] = equal
cmp [] (b ∷ ys) = less
cmp (a ∷ xs) [] = greater
cmp (a ∷ xs) (b ∷ ys) = cmp_byte a b (cmp xs ys)

abbrev pub ok_or {ℓ} : {A : Type ℓ} → Option A → BookError → Result BookError A
ok_or none e = err e
ok_or (some a) e = ok a

-- `&head[..16] != MAGIC`.
abbrev pub is_magic : Bytes → Bool
is_magic b = elim (cmp b magic) [ equal ↦ true | _ ↦ false ]

unfoldable pub parse_header : Bytes → Result BookError (ℕ × ℕ)
unfolding cmp
parse_header head =
    let flags = read_u64_le (slice 24 8 head) in
    if not (is_magic (slice 0 16 head))
    then err bad_magic
    else if not (bit_and flags (2 ^ 64 - 1 - known_flags) == 0)
    then err (unknown_flags flags)
    else ok (read_u64_le (slice 16 8 head), flags)

unfoldable pub moves_base_of : (record_count : ℕ) → Result BookError ℕ
moves_base_of record_count =
    ok_or
      (elim (checked (record_count * index_record_size)) [
        | none ↦ none
        | some body ↦ checked (body + header_size)
      ])
      record_count_overflow

unfoldable pub from_memory : Bytes → Result BookError Book
unfolding parse_header moves_base_of
from_memory data_ = ok_or (get_range data_ 0 header_size) truncated_header >>= λ head.
    parse_header head >>= λ (parsed : ℕ × ℕ). moves_base_of parsed.0 >>= λ base.
    if ltb (length data_) base
    then err truncated_index
    else ok (record {
      record_count = parsed.0;
      flags = parsed.1;
      moves_base = base;
      source = memory data_;
    })

-- `std::fs::read(path)` and `File::open(path)`, by their results.
unfoldable pub opened {ℓ} : {A : Type ℓ} → Result ℕ A → Result BookError A
opened (ok a) = ok a
opened (err e) = err (io e)

unfoldable pub open_in_memory : Result ℕ Bytes → Result BookError Book
unfolding opened from_memory
open_in_memory contents = opened contents >>= from_memory

-- `index.read_exact(&mut head)`, with the end of the file told apart.
unfoldable pub read_head : File → Result BookError Bytes
read_head f = elim (f.read_exact 0 header_size) [
  | filled head ↦ ok head
  | unexpected_eof ↦ err truncated_header
  | failed e ↦ err (io e)
]

unfoldable pub open_on_the_fly : (index moves : Result ℕ File) → Result BookError Book
unfolding opened read_head parse_header moves_base_of
open_on_the_fly index moves = opened index >>= λ (i : File). opened moves >>= λ (m : File).
    read_head i >>= λ head. parse_header head >>= λ (parsed : ℕ × ℕ).
    moves_base_of parsed.0 >>= λ base.
    ok (record { record_count = parsed.0; flags = parsed.1; moves_base = base; source = file i m })

unfoldable pub has_move_depth : Book → Bool
has_move_depth b = not (bit_and b.flags flag_move_depth == 0)

unfoldable pub move_record_size : Book → ℕ
unfolding has_move_depth
move_record_size b = if has_move_depth b then 6 else 4

unfoldable pub parse_index_entry : Bytes → IndexEntry
unfolding read_u64_le read_u16_le
parse_index_entry buf = record {
  packed = slice 0 32 buf;
  moves_offset = read_u64_le (slice 32 8 buf);
  ply = read_u16_le (slice 40 2 buf);
  move_count = read_u16_le (slice 42 2 buf);
}

-- `read_at`: the buffer as filled, or the end of the file.
unfoldable pub read_at : File → (offset len : ℕ) → Result BookError (Option Bytes)
read_at f offset len = elim (f.seek offset) [
  | some e ↦ err (io e)
  | none ↦ elim (f.read_exact offset len) [
    | filled buf ↦ ok (some buf)
    | unexpected_eof ↦ ok none
    | failed e ↦ err (io e)
  ]
]

abbrev pub map_some {ℓ κ} : {A : Type ℓ} {B : Type κ} → (A → B) → Option A → Option B
map_some f none = none
map_some f (some a) = some (f a)

unfoldable pub read_index_entry : Book → (index : ℕ) → Result BookError (Option IndexEntry)
unfolding parse_index_entry read_at
read_index_entry b index =
    let offset = (header_size + index * index_record_size) % 2 ^ 64 in
    elim b.source [
      | memory data_ ↦ ok (
          map_some parse_index_entry
            (get_range data_ offset ((offset + index_record_size) % 2 ^ 64)))
      | file i m ↦ read_at i offset index_record_size >>= λ buf. ok (map_some parse_index_entry buf)
    ]

unfoldable pub decode_move : Bytes → (record_size i : ℕ) (has_depth : Bool) → BookMove
unfolding read_u16_le of_i16
decode_move region record_size i has_depth =
    let base = i * record_size in
    record {
      move16 = read_u16_le (slice base 2 region);
      value = of_i16 (read_u16_le (slice (base + 2) 2 region));
      depth = if has_depth then read_u16_le (slice (base + 4) 2 region) else 0;
      count = 0;
    }

-- The moves `i`, `i + 1`, ... of the region, `left` of them.
unfoldable pub decode_from :
    (left : ℕ) → Bytes → (record_size i : ℕ) (has_depth : Bool) → List BookMove
unfolding decode_move
decode_from zero region record_size i has_depth = []
decode_from (suc left) region record_size i has_depth =
    decode_move region record_size i has_depth
    ∷ decode_from left region record_size (suc i) has_depth

unfoldable pub decode_moves :
    Bytes → (move_count record_size : ℕ) (has_depth : Bool) → List BookMove
unfolding decode_from
decode_moves region move_count record_size has_depth =
    decode_from move_count region record_size 0 has_depth

unfoldable pub read_moves : Book → IndexEntry → Result BookError (Option (List BookMove))
unfolding move_record_size decode_moves read_at has_move_depth
read_moves b entry =
    let record_size = move_record_size b in
    let total = entry.move_count * record_size in
    let decode =
      λ (region : Bytes). decode_moves region entry.move_count record_size (has_move_depth b) in
    elim (checked (b.moves_base + entry.moves_offset)) [
      | none ↦ ok none
      | some absolute ↦ elim b.source [
        | memory data_ ↦ elim (checked (absolute + total)) [
          | none ↦ ok none
          | some end ↦ ok (map_some decode (get_range data_ absolute end))
        ]
        | file i m ↦ read_at m absolute total >>= λ buf. ok (map_some decode buf)
      ]
    ]

-- The entry found, read unless its ply is another one.
unfoldable pub answer :
    Book
    → IndexEntry
    → (game_ply : ℕ) (ignore_book_ply : Bool) → Result BookError (Option (List BookMove))
unfolding read_moves
answer b entry game_ply ignore_book_ply =
    if not ignore_book_ply && not (entry.ply == game_ply) then ok none else read_moves b entry

-- The loop of `probe` on `left..right`; `none` only where the fuel ends first.
unfoldable pub probe_loop :
    (fuel : ℕ)
    → Book
    → (packed : Bytes) (game_ply : ℕ) (ignore_book_ply : Bool) (left right : ℕ)
    → Option (Result BookError (Option (List BookMove)))
unfolding read_index_entry cmp answer
probe_loop zero b packed game_ply ignore_book_ply left right = none
probe_loop (suc fuel) b packed game_ply ignore_book_ply left right =
    let middle = (left + (right - left) / 2) % 2 ^ 64 in
    elim (ltb left right) [
      | false ↦ some (ok none)
      | true ↦ elim (read_index_entry b middle) [
        | err e ↦ some (err e)
        | ok none ↦ some (ok none)
        | ok (some entry) ↦ elim (cmp packed entry.packed) [
          | less ↦ probe_loop fuel b packed game_ply ignore_book_ply left middle
          | greater ↦
              probe_loop fuel b packed game_ply ignore_book_ply ((middle + 1) % 2 ^ 64) right
          | equal ↦ some (answer b entry game_ply ignore_book_ply)
        ]
      ]
    ]

-- A range of fewer than 2 ^ 64 records is halved at most 64 times.
abbrev pub probe_fuel : ℕ
probe_fuel = 65

unfoldable pub probe :
    Book
    → (packed : Bytes) (game_ply : ℕ) (ignore_book_ply : Bool)
    → Option (Result BookError (Option (List BookMove)))
unfolding probe_loop
probe b packed game_ply ignore_book_ply =
    probe_loop probe_fuel b packed game_ply ignore_book_ply 0 b.record_count

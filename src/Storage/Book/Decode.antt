-- ===== src/Storage/Book/Decode.antt =====
-- The moves of a record read back, `decode_moves` of crates/attic-storage/src/book.rs, and its index
-- record, `parse_index_entry`.
use attic_shogi.Prelude.{
  ℕ, zero, suc, ◌+◌, ◌*◌, ◌%◌, ◌^◌, ◌<◌, ◌≡◌, refl, sym, ap, ap₂, ◌∙◌, Bool, true, false,
  if◌then◌else◌, List, [], ◌∷◌, ◌++◌, map, length, arith,
}
use mathlib.Core.List.{append-nil, append_assoc}
use attic_shogi.Prelude.Int.{pos, negsuc, ◌≤ℤ◌}
use attic_shogi.Storage.Bytes.{Bytes, slice, to_le_bytes, read_u16_le, read_u64_le}
use attic_shogi.Storage.Bytes.Laws.{
  length-++, slice_skip, slice_head, read_u16_le-to_le_bytes, read_u64_le-to_le_bytes,
}
use attic_shogi.Storage.Entry.{to_i16, of_i16}
use attic_shogi.Storage.Entry.Laws.{of_i16-to_i16, to_i16-lt}
use attic_shogi.Storage.Book.{
  BookMove, IndexEntry, parse_index_entry, decode_move, decode_from, decode_moves,
}
use attic_shogi.Storage.Book.Build.{RawMove, RawRecord, move_bytes, moves_bytes, record_bytes}

-- The fields of a move are words of their widths.
pub record IsMove (m : RawMove) : Type 0 where
  pub move16 : m.move16 < 2 ^ 16
  pub value : (negsuc 32767 ≤ℤ m.value) × (m.value ≤ℤ pos 32767)
  pub depth : m.depth < 2 ^ 16

abbrev pub All {ℓ} : {A : Type ℓ} → (A → Type 0) → List A → Type 0
All P [] = Unit
All P (x ∷ xs) = P x × All P xs

-- The move as the reader returns it.
abbrev pub book_move : (with_depth : Bool) → RawMove → BookMove
book_move with_depth m = record {
  move16 = m.move16;
  value = m.value;
  depth = if with_depth then m.depth else 0;
  count = 0;
}

abbrev pub record_size : Bool → ℕ
record_size with_depth = if with_depth then 6 else 4

pub length-move_bytes : (w : Bool) (m : RawMove) → length (move_bytes w m) ≡ record_size w
unfolding move_bytes to_le_bytes
length-move_bytes true m = refl
length-move_bytes false m = refl

value_back :
    (m : RawMove) → IsMove m → of_i16 (read_u16_le (to_le_bytes 2 (to_i16 m.value))) ≡ m.value
value_back m v =
    ap of_i16 (read_u16_le-to_le_bytes (to_i16 m.value) (to_i16-lt m.value))
    ∙ of_i16-to_i16 m.value v.value.0 v.value.1

suc_mul : (i size k : ℕ) → suc i * size + k ≡ size + (i * size + k)
suc_mul i size k = omega arith

-- The first move of a region.
decode_move-move_bytes :
    (w : Bool) (m : RawMove) (ys : Bytes)
    → IsMove m
    → decode_move (move_bytes w m ++ ys) (record_size w) 0 w ≡ book_move w m
unfolding decode_move move_bytes to_le_bytes
decode_move-move_bytes true m ys v = λ i. record {
  move16 = read_u16_le-to_le_bytes m.move16 v.move16 i;
  value = value_back m v i;
  depth = read_u16_le-to_le_bytes m.depth v.depth i;
  count = 0;
}
decode_move-move_bytes false m ys v = λ i. record {
  move16 = read_u16_le-to_le_bytes m.move16 v.move16 i;
  value = value_back m v i;
  depth = 0;
  count = 0;
}

-- Past one record, the moves of what follows.
decode_move_skip :
    (xs ys : Bytes) (size i : ℕ) (w : Bool)
    → length xs ≡ size
    → decode_move (xs ++ ys) size (suc i) w ≡ decode_move ys size i w
unfolding decode_move
decode_move_skip xs ys size i w h = λ j. record {
  move16 = read_u16_le (first j);
  value = of_i16 (read_u16_le (at 2 2 j));
  depth = if w then read_u16_le (at 4 2 j) else 0;
  count = 0;
}
  where
    at : (k n : ℕ) → slice (suc i * size + k) n (xs ++ ys) ≡ slice (i * size + k) n ys
    at k n =
        ap (λ t. slice t n (xs ++ ys)) (suc_mul i size k) ∙ slice_skip xs ys size (i * size + k) n h

    add_zero : (a : ℕ) → a ≡ a + 0
    add_zero a = omega arith

    first : slice (suc i * size) 2 (xs ++ ys) ≡ slice (i * size) 2 ys
    first =
        ap (λ t. slice t 2 (xs ++ ys)) (add_zero (suc i * size))
        ∙ at 0 2
        ∙ ap (λ t. slice t 2 ys) (sym (add_zero (i * size)))

decode_from_skip :
    (n : ℕ) (xs ys : Bytes) (size i : ℕ) (w : Bool)
    → length xs ≡ size
    → decode_from n (xs ++ ys) size (suc i) w ≡ decode_from n ys size i w
unfolding decode_from
decode_from_skip zero xs ys size i w h = refl
decode_from_skip (suc n) xs ys size i w h =
    ap₂ ◌∷◌ (decode_move_skip xs ys size i w h) (decode_from_skip n xs ys size (suc i) w h)

decode_from-moves_bytes :
    (w : Bool) (ms : List RawMove) (ys : Bytes)
    → All IsMove ms
    → decode_from (length ms) (moves_bytes w ms ++ ys) (record_size w) 0 w ≡ map (book_move w) ms
unfolding decode_from moves_bytes
decode_from-moves_bytes w [] ys v = refl
decode_from-moves_bytes w (m ∷ ms) ys v =
    ap (λ t. decode_from (suc (length ms)) t (record_size w) 0 w)
      (append_assoc (move_bytes w m) (moves_bytes w ms) ys)
    ∙ ap₂ ◌∷◌ (decode_move-move_bytes w m (moves_bytes w ms ++ ys) v.0) (
        decode_from_skip (length ms) (move_bytes w m) (moves_bytes w ms ++ ys) (record_size w) 0 w
          (length-move_bytes w m)
        ∙ decode_from-moves_bytes w ms ys v.1)

-- The moves of a record that were written, read back.
pub decode_moves-moves_bytes :
    (w : Bool) (ms : List RawMove)
    → All IsMove ms
    → decode_moves (moves_bytes w ms) (length ms) (record_size w) w ≡ map (book_move w) ms
unfolding decode_moves
decode_moves-moves_bytes w ms v =
    ap (λ t. decode_from (length ms) t (record_size w) 0 w) (sym (append-nil (moves_bytes w ms)))
    ∙ decode_from-moves_bytes w ms [] v

pub length-moves_bytes :
    (w : Bool) (ms : List RawMove) → length (moves_bytes w ms) ≡ length ms * record_size w
unfolding moves_bytes
length-moves_bytes w [] = omega arith
length-moves_bytes w (m ∷ ms) =
    length-++ (move_bytes w m) (moves_bytes w ms)
    ∙ ap₂ ◌+◌ (length-move_bytes w m) (length-moves_bytes w ms)
    ∙ suc_mul' (length ms) (record_size w)
  where
    suc_mul' : (a b : ℕ) → b + a * b ≡ suc a * b
    suc_mul' a b = omega arith

pub record IsRecord (r : RawRecord) : Type 0 where
  pub packed : length r.packed ≡ 32
  pub ply : r.ply < 2 ^ 16
  pub few : length r.moves < 2 ^ 16
  pub moves : All IsMove r.moves

pub length-record_bytes : (o : ℕ) (r : RawRecord) → IsRecord r → length (record_bytes o r) ≡ 44
unfolding record_bytes to_le_bytes
length-record_bytes o r v = length-++ r.packed _ ∙ rw v.packed refl

-- The entry of a record.
abbrev pub entry_of : (moves_offset : ℕ) → RawRecord → IndexEntry
entry_of o r = record {
  packed = r.packed;
  moves_offset = o;
  ply = r.ply;
  move_count = length r.moves;
}

pub parse_index_entry-record_bytes :
    (o : ℕ) (r : RawRecord)
    → o < 2 ^ 64
    → IsRecord r
    → parse_index_entry (record_bytes o r) ≡ entry_of o r
unfolding parse_index_entry record_bytes
parse_index_entry-record_bytes o r h v = λ i. record {
  packed = slice_head r.packed tail 32 v.packed i;
  moves_offset =
      (ap read_u64_le (slice_skip r.packed tail 32 0 8 v.packed) ∙ read_u64_le-to_le_bytes o h) i;
  ply =
      (ap read_u16_le (slice_skip r.packed tail 32 8 2 v.packed)
          ∙ read_u16_le-to_le_bytes r.ply v.ply)
        i;
  move_count =
      (ap read_u16_le (slice_skip r.packed tail 32 10 2 v.packed)
          ∙ read_u16_le-to_le_bytes (length r.moves % 2 ^ 16) (omega arith)
          ∙ small (length r.moves) v.few)
        i;
}
  where
    tail : Bytes
    tail = to_le_bytes 8 o ++ (to_le_bytes 2 r.ply ++ to_le_bytes 2 (length r.moves % 2 ^ 16))

    small : (a : ℕ) → a < 2 ^ 16 → a % 2 ^ 16 ≡ a
    small a p = omega arith

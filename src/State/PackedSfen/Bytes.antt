-- ===== src/State/PackedSfen/Bytes.antt =====
-- Where the bits of the stream stand in the 32 bytes of a packed position, crates/attic-state/src/
-- packed_sfen.rs: bit `i` is bit `i % 8` of byte `i / 8`, and what runs past the end is dropped.
use attic_shogi.Prelude.{
  ℕ, suc, zero, ◌+◌, ◌/◌, ◌%◌, ◌^◌, ◌<◌, ◌≡◌, refl, ap, bit_and, bit_or, Bool, true, false, ◌==◌,
  if◌then◌else◌, [], ◌∷◌, ◌++◌, some, get_or, set, length, length-set, get_or-set_self,
  get_or-set_ne, get_or-replicate, ℕ_discrete, arith,
}
use attic_shogi.Prelude.Bits.{digit, digit-lt, digit-bit_or, digit-zero, bit_and_mask}
use attic_shogi.Prelude.Masks.{digit-two_pow}
use mathlib.Core.List.{append_assoc, append-nil}
use mathlib.Core.Path.{subst}
use attic_shogi.State.Position.Types.{Position}
use attic_shogi.State.PackedSfen.{
  BitWriter, PackedSfen, packed_sfen_len, new, write_one_bit, sfen_pack,
}
use attic_shogi.State.PackedSfen.Stream.{Bits, write_all}
use attic_shogi.State.PackedSfen.Whole.{stream, pack_writer_lem}

abbrev pub bit_of : Bool → ℕ
bit_of true = 1
bit_of false = 0

-- Bit `i` of a buffer.
unfoldable pub buffer_bit : PackedSfen → ℕ → ℕ
buffer_bit d i = digit (get_or d (i / 8) 0) (i % 8)

-- The buffer holds the bits of a stream, and 0 after them.
record IsWritten (w : BitWriter) (bs : Bits) : Type 0 where
  whole : length w.data_ ≡ packed_sfen_len
  at_end : w.cursor ≡ length bs
  holds : (i : ℕ) → i < 256 → buffer_bit w.data_ i ≡ bit_of (get_or bs i false)

get_or-snoc :
    (bs : Bits) (b : Bool) (i : ℕ)
    → get_or (bs ++ b ∷ []) i false ≡ (if i == length bs then b else get_or bs i false)
get_or-snoc [] b zero = refl
get_or-snoc [] b (suc i) = ground arith
get_or-snoc (x ∷ bs) b zero = ground arith
get_or-snoc (x ∷ bs) b (suc i) = ground (arith, get_or-snoc bs b i)

get_or_past : (bs : Bits) → get_or bs (length bs) false ≡ false
get_or_past [] = refl
get_or_past (x ∷ bs) = get_or_past bs

length-snoc : (bs : Bits) (b : Bool) → length (bs ++ b ∷ []) ≡ length bs + 1
length-snoc [] b = refl
length-snoc (x ∷ bs) b = omega (arith, length-snoc bs b)

-- Setting a bit of a byte.
digit-set_bit :
    (x k i : ℕ)
    → digit (bit_or x (2 ^ bit_and k 7)) (i % 8) ≡ (if i % 8 == k % 8 then 1 else digit x (i % 8))
digit-set_bit x k i = ground (
  arith,
  digit-bit_or x (2 ^ bit_and k 7) (i % 8),
  digit-two_pow (bit_and k 7) (i % 8),
  bit_and_mask 3 k,
  digit-lt x (i % 8),
)

-- Setting bit `k` of the buffer.
buffer_bit-set :
    (d : PackedSfen) (k i : ℕ)
    → length d ≡ packed_sfen_len
    → k < 256
    → buffer_bit (set d (k / 8) (bit_or (get_or d (k / 8) 0) (2 ^ bit_and k 7))) i
      ≡ (if i == k then 1 else buffer_bit d i)
unfolding buffer_bit
buffer_bit-set d k i e h = elim (ℕ_discrete (k / 8) (i / 8)) [
  | yes same ↦
      rw
        (
          ← same,
          get_or-set_self d (k / 8) (bit_or (get_or d (k / 8) 0) (2 ^ bit_and k 7)) 0 (omega arith),
        )
        (ground (arith, digit-set_bit (get_or d (k / 8) 0) k i))
  | no other ↦
      rw (get_or-set_ne d (k / 8) (i / 8) (bit_or (get_or d (k / 8) 0) (2 ^ bit_and k 7)) 0 other)
        (ground arith)
]

write_one_bit-IsWritten :
    (w : BitWriter) (bs : Bits) (b : Bool)
    → IsWritten w bs
    → IsWritten (write_one_bit w b) (bs ++ b ∷ [])
unfolding write_one_bit
write_one_bit-IsWritten w bs b v = record {
  whole = ground (
    arith,
    length-set w.data_ (w.cursor / 8)
        (bit_or (get_or w.data_ (w.cursor / 8) 0) (2 ^ bit_and w.cursor 7)),
  );
  at_end = omega (arith, length-snoc bs b);
  holds = λ i h. ground (
    arith,
    v.holds i h,
    get_or-snoc bs b i,
    get_or_past bs,
    buffer_bit-set w.data_ w.cursor i v.whole,
  );
}

write_all-IsWritten :
    (w : BitWriter) (bs cs : Bits) → IsWritten w bs → IsWritten (write_all w cs) (bs ++ cs)
unfolding write_all
write_all-IsWritten w bs [] v = rw append-nil v
write_all-IsWritten w bs (c ∷ cs) v =
    subst (IsWritten (write_all (write_one_bit w c) cs)) (append_assoc bs (c ∷ []) cs)
      (write_all-IsWritten (write_one_bit w c) (bs ++ c ∷ []) cs (write_one_bit-IsWritten w bs c v))

new-IsWritten : IsWritten new []
unfolding buffer_bit
new-IsWritten = record {
  whole = refl;
  at_end = refl;
  holds = λ i h. omega (
    arith,
    ap (λ x. digit x (i % 8)) (get_or-replicate packed_sfen_len (i / 8) 0 0 (omega arith)),
    digit-zero (i % 8),
  );
}

-- A position packs without a panic, whatever stands on its board, into 32 bytes: bit `i` of the
-- buffer is bit `i` of the stream, and 0 past the end of the stream.
pub sfen_pack-bits :
    {Info : Type 0} (pos : Position Info)
    → (d : PackedSfen) × (sfen_pack pos ≡ some d)
      × (length d ≡ packed_sfen_len)
      × ((i : ℕ) → i < 256 → buffer_bit d i ≡ bit_of (get_or (stream pos) i false))
unfolding sfen_pack
sfen_pack-bits pos =
    let written = write_all-IsWritten new [] (stream pos) new-IsWritten in
    (
      (write_all new (stream pos)).data_,
      rw (sfen_pack, pack_writer_lem pos),
      written.whole,
      written.holds,
    )

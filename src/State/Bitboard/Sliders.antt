-- ===== src/State/Bitboard/Sliders.antt =====
-- The attacks of the sliders under an occupancy, crates/attic-state/src/bitboard.rs: the scalar forms
-- of the lane operations, which the SSE2 and AVX2 forms equal. A `[u64; 2]` is a `Bitboard`.
use attic_shogi.Prelude.{
  ℕ, zero, suc, ◌+◌, ◌-◌, ◌*◌, ◌/◌, ◌%◌, ◌^◌, bit_and, bit_or, bit_xor, ◌==◌, ltb, if◌then◌else◌,
}
use attic_shogi.Prelude.Bits.{digit}
use attic_shogi.State.Piece.{Color, black, white}
use attic_shogi.State.Square.{Square}
use attic_shogi.State.Bitboard.{Bitboard, lane_split, union, inter, sym_diff}
use attic_shogi.State.Bitboard.Rays.{ray, king_attacks}

abbrev pub word : ℕ
word = 2 ^ 64

-- `wrapping_sub` on `u64`.
abbrev pub sub64 : ℕ → ℕ → ℕ
sub64 a b = (a + word - b) % word

-- `part`, and the lane of a set that it names.
abbrev pub part : Square → ℕ
part s = if ltb lane_split s then 1 else 0

abbrev pub lane : Bitboard → ℕ → ℕ
lane a pt = if pt == 0 then a.p0 else a.p1

-- `out[pt] = x` in an array of zeros.
abbrev pub only_lane : ℕ → ℕ → Bitboard
only_lane pt x = if pt == 0 then record { p0 = x; p1 = 0 } else record { p0 = 0; p1 = x }

-- The zeros above the highest set bit, of the `n` lowest bits.
unfoldable pub leading_zeros : (n x : ℕ) → ℕ
unfolding digit
leading_zeros zero x = 0
leading_zeros (suc n) x = let rest = leading_zeros n x in if digit x n == 0 then suc rest else 0

-- `msb64`.
unfoldable pub msb64 : ℕ → ℕ
unfolding leading_zeros
msb64 x = 63 - leading_zeros 64 x

unfoldable pub file_up : (occ_lane mask : ℕ) → ℕ
file_up occ_lane mask = let em = bit_and occ_lane mask in bit_and (bit_xor em (sub64 em 1)) mask

unfoldable pub file_down : (occ_lane se : ℕ) → ℕ
unfolding msb64
file_down occ_lane se =
    let mocc = bit_and se occ_lane in bit_and ((word - 1) * 2 ^ msb64 (bit_or mocc 1) % word) se

unfoldable pub lance_attacks : Color → Square → Bitboard → Bitboard
unfolding file_up file_down ray
lance_attacks white s occ =
    only_lane (part s) (file_up (lane occ (part s)) (lane (ray 1 s) (part s)))
lance_attacks black s occ =
    only_lane (part s) (file_down (lane occ (part s)) (lane (ray 0 s) (part s)))

unfoldable pub rook_file : Square → Bitboard → Bitboard
unfolding file_up file_down ray
rook_file s occ =
    let up = file_up (lane occ (part s)) (lane (ray 1 s) (part s)) in
    let down = file_down (lane occ (part s)) (lane (ray 0 s) (part s)) in
    only_lane (part s) (bit_or up down)

-- The `n` lowest bytes in reverse.
unfoldable pub reverse_bytes : (n x : ℕ) → ℕ
reverse_bytes zero x = 0
reverse_bytes (suc n) x = x % 256 * 2 ^ (8 * n) + reverse_bytes n (x / 256)

-- `u64::swap_bytes`.
unfoldable pub swap_bytes : ℕ → ℕ
unfolding reverse_bytes
swap_bytes x = reverse_bytes 8 x

-- `lane_byte_reverse` and `cbyte_reverse`.
unfoldable pub byte_reverse : Bitboard → Bitboard
unfolding swap_bytes
byte_reverse a = record { p0 = swap_bytes a.p1; p1 = swap_bytes a.p0 }

-- `(hi, lo)` of `lane_unpack`, `cunpack` and `lane_pair_decrement`.
pub record Pair : Type 0 where
  pub hi : Bitboard
  pub lo : Bitboard

unfoldable pub unpack : (hi_in lo_in : Bitboard) → Pair
unpack hi_in lo_in = record {
  hi = record { p0 = lo_in.p1; p1 = hi_in.p1 };
  lo = record { p0 = lo_in.p0; p1 = hi_in.p0 };
}

-- `(x == 0) as u64`.
abbrev pub is_zero : ℕ → ℕ
is_zero x = if x == 0 then 1 else 0

unfoldable pub pair_decrement : (hi_in lo_in : Bitboard) → Pair
pair_decrement hi_in lo_in = record {
  hi = record { p0 = sub64 hi_in.p0 (is_zero lo_in.p0); p1 = sub64 hi_in.p1 (is_zero lo_in.p1) };
  lo = record { p0 = sub64 lo_in.p0 1; p1 = sub64 lo_in.p1 1 };
}

-- `QUGIY_ROOK_MASK[sq]`: entry 0 is the `lo` half and entry 1 the `hi` half.
unfoldable pub qugiy_rook_mask : Square → Pair
unfolding unpack byte_reverse ray
qugiy_rook_mask s = unpack (byte_reverse (ray 3 s)) (ray 2 s)

unfoldable pub rook_rank : Square → Bitboard → Bitboard
unfolding qugiy_rook_mask unpack byte_reverse pair_decrement inter sym_diff union
rook_rank s occ =
    let mask = qugiy_rook_mask s in
    let split = unpack (byte_reverse occ) occ in
    let hi = inter split.hi mask.hi in
    let lo = inter split.lo mask.lo in
    let t = pair_decrement hi lo in
    let t1 = inter (sym_diff t.hi hi) mask.hi in
    let t0 = inter (sym_diff t.lo lo) mask.lo in
    let joined = unpack t1 t0 in union (byte_reverse joined.hi) joined.lo

unfoldable pub rook_attacks : Square → Bitboard → Bitboard
unfolding rook_rank rook_file union
rook_attacks s occ = union (rook_rank s occ) (rook_file s occ)

-- `Bitboard256`: the low and the high pair of lanes.
pub record Bitboard256 : Type 0 where
  pub low : Bitboard
  pub high : Bitboard

abbrev pub bb256_broadcast : Bitboard → Bitboard256
bb256_broadcast a = record { low = a; high = a }

-- An operation on each pair of lanes.
abbrev pub both_pairs : (Bitboard → Bitboard → Bitboard) → Bitboard256 → Bitboard256 → Bitboard256
both_pairs f a b = record { low = f a.low b.low; high = f a.high b.high }

abbrev pub bb256_byte_reverse : Bitboard256 → Bitboard256
bb256_byte_reverse a = record { low = byte_reverse a.low; high = byte_reverse a.high }

pub record Pair256 : Type 0 where
  pub hi : Bitboard256
  pub lo : Bitboard256

-- `bb256_unpack` and `bb256_pair_decrement` work on each pair of lanes by itself.
abbrev pub both_halves : (Bitboard → Bitboard → Pair) → Bitboard256 → Bitboard256 → Pair256
both_halves f hi lo =
    let l = f hi.low lo.low in
    let h = f hi.high lo.high in
    record { hi = record { low = l.hi; high = h.hi }; lo = record { low = l.lo; high = h.lo } }

-- The four diagonals of `QUGIY_BISHOP_MASK[sq]`: those of directions 5 and 7 in reverse.
abbrev pub diagonal : ℕ → Square → Bitboard
diagonal d s = if d % 2 == 1 then byte_reverse (ray d s) else ray d s

unfoldable pub qugiy_bishop_mask : Square → Pair256
unfolding byte_reverse ray
qugiy_bishop_mask s = record {
  lo = record {
    low = record { p0 = (diagonal 4 s).p0; p1 = (diagonal 5 s).p0 };
    high = record { p0 = (diagonal 6 s).p0; p1 = (diagonal 7 s).p0 };
  };
  hi = record {
    low = record { p0 = (diagonal 4 s).p1; p1 = (diagonal 5 s).p1 };
    high = record { p0 = (diagonal 6 s).p1; p1 = (diagonal 7 s).p1 };
  };
}

unfoldable pub bb256_merge : Bitboard256 → Bitboard
unfolding union
bb256_merge a = union a.low a.high

unfoldable pub bishop_attacks : Square → Bitboard → Bitboard
unfolding qugiy_bishop_mask byte_reverse unpack pair_decrement inter sym_diff union bb256_merge
bishop_attacks s occ =
    let mask = qugiy_bishop_mask s in
    let split = both_halves unpack (bb256_broadcast (byte_reverse occ)) (bb256_broadcast occ) in
    let hi = both_pairs inter split.hi mask.hi in
    let lo = both_pairs inter split.lo mask.lo in
    let t = both_halves pair_decrement hi lo in
    let t1 = both_pairs inter (both_pairs sym_diff t.hi hi) mask.hi in
    let t0 = both_pairs inter (both_pairs sym_diff t.lo lo) mask.lo in
    let joined = both_halves unpack t1 t0 in
    bb256_merge (both_pairs union (bb256_byte_reverse joined.hi) joined.lo)

unfoldable pub horse_attacks : Square → Bitboard → Bitboard
unfolding bishop_attacks union king_attacks
horse_attacks s occ = union (bishop_attacks s occ) (king_attacks black s)

unfoldable pub dragon_attacks : Square → Bitboard → Bitboard
unfolding rook_attacks union king_attacks
dragon_attacks s occ = union (rook_attacks s occ) (king_attacks black s)

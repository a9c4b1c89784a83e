-- ===== src/State/Bitboard/Raw.antt =====
-- The 128-bit form of a set: `raw` and `from_raw` of bitboard.rs.
use attic_shogi.Prelude.{ℕ, ◌+◌, ◌*◌, ◌/◌, ◌%◌, ◌^◌, ◌<◌, ◌≡◌, arith}
use attic_shogi.Prelude.Bits.{bit_or_fields, bit_and_mask}
use attic_shogi.State.Bitboard.{Bitboard, raw, from_raw}
use attic_shogi.State.Bitboard.Laws.{IsCanonical}

raw_lem : (a : Bitboard) → a.p0 < 2 ^ 63 → raw a ≡ a.p0 + a.p1 * 2 ^ 63
unfolding raw
raw_lem a h = bit_or_fields 63 a.p0 a.p1 h

pub low_lem : (bits : ℕ) → (from_raw bits).p0 ≡ bits % 2 ^ 63
unfolding from_raw
low_lem bits = rw (bit_and_mask 81 bits) (omega (arith, bit_and_mask 63 (bits % 2 ^ 81)))

pub high_lem : (bits : ℕ) → (from_raw bits).p1 ≡ bits % 2 ^ 81 / 2 ^ 63
unfolding from_raw
high_lem bits = rw (bit_and_mask 81 bits) (omega arith)

-- `from_raw` takes back `raw` on a set whose spare bits are clear.
pub from_raw-raw : (a : Bitboard) → IsCanonical a → from_raw (raw a) ≡ a
from_raw-raw a c = λ i. record { p0 = first i; p1 = second i }
  where
    first : (from_raw (raw a)).p0 ≡ a.p0
    first = omega (arith, low_lem (raw a), raw_lem a c.lane0, c.lane0)

    second : (from_raw (raw a)).p1 ≡ a.p1
    second = omega (arith, high_lem (raw a), raw_lem a c.lane0, c.lane0, c.lane1)

-- Any word becomes a set whose spare bits are clear, with the low 81 bits of the word.
pub raw-from_raw : (bits : ℕ) → IsCanonical (from_raw bits) × (raw (from_raw bits) ≡ bits % 2 ^ 81)
raw-from_raw bits = (
  record { lane0 = omega (arith, low_lem bits); lane1 = omega (arith, high_lem bits) },
  omega (arith, raw_lem (from_raw bits) (omega (arith, low_lem bits)), low_lem bits, high_lem bits),
)

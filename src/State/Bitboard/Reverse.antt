-- ===== src/State/Bitboard/Reverse.antt =====
-- The byte reversal of crates/attic-state/src/bitboard.rs: byte `i` of the 16 becomes byte `15 - i`, and
-- the bits of a byte keep their order.
use attic_shogi.Prelude.{
  ℕ, zero, suc, ◌+◌, ◌-◌, ◌*◌, ◌/◌, ◌%◌, ◌^◌, ◌<◌, ◌≡◌, ◌∙◌, ap, ltb, Bool-cases, inl, inr, arith,
}
use attic_shogi.Prelude.Bits.{digit, two_pow_suc}
use attic_shogi.Prelude.Borrow.{digit-join, digit-mod, digit-div}
use attic_shogi.State.Bitboard.{Bitboard}
use attic_shogi.State.Bitboard.Sliders.{reverse_bytes, swap_bytes, byte_reverse}
use attic_shogi.State.Bitboard.Slide.{bit128, IsWords}

byte_pow : (n : ℕ) → 2 ^ (8 * suc n) ≡ 256 * 2 ^ (8 * n)
byte_pow n =
    let e : 8 * suc n ≡ suc (suc (suc (suc (suc (suc (suc (suc (8 * n)))))))) = omega arith in
    rw e (simp two_pow_suc (omega arith))

reverse_bytes-lt : (n x : ℕ) → reverse_bytes n x < 2 ^ (8 * n)
unfolding reverse_bytes
reverse_bytes-lt zero x = omega arith
reverse_bytes-lt (suc n) x = rw (byte_pow n) (grind (arith, reverse_bytes-lt n (x / 256)))

digit-reverse_bytes :
    (n x k : ℕ) → k < 8 * n → digit (reverse_bytes n x) k ≡ digit x (8 * (n - 1 - k / 8) + k % 8)
unfolding reverse_bytes
digit-reverse_bytes zero x k h = absurd (omega arith)
digit-reverse_bytes (suc n) x k h =
    digit-join (8 * n) (x % 256) (reverse_bytes n (x / 256)) k (reverse_bytes-lt n (x / 256))
    ∙ elim (Bool-cases (ltb k (8 * n))) [
      | inl below ↦
          let there : 8 * (n - 1 - k / 8) + k % 8 + 8 ≡ 8 * (suc n - 1 - k / 8) + k % 8 =
            ground arith in
          rw below (
            digit-reverse_bytes n (x / 256) k (ground arith)
            ∙ digit-div 8 x (8 * (n - 1 - k / 8) + k % 8)
            ∙ ap (digit x) there)
      | inr above ↦
          let there : k - 8 * n ≡ 8 * (suc n - 1 - k / 8) + k % 8 = ground arith in
          rw above (digit-mod 8 x (k - 8 * n) ∙ ground (arith, ap (digit x) there))
    ]

-- Where a bit goes: byte `15 - p / 8`, and back.
abbrev pub reversed : ℕ → ℕ
reversed p = 8 * (15 - p / 8) + p % 8

pub reversed-reversed : (p : ℕ) → p < 128 → reversed (reversed p) ≡ p
reversed-reversed p h = omega arith

digit-swap_bytes : (x k : ℕ) → k < 64 → digit (swap_bytes x) k ≡ digit x (8 * (7 - k / 8) + k % 8)
unfolding swap_bytes
digit-swap_bytes x k h =
    digit-reverse_bytes 8 x k (omega arith)
    ∙ ap (digit x)
        (let e : 8 * (8 - 1 - k / 8) + k % 8 ≡ 8 * (7 - k / 8) + k % 8 = omega arith in e)

pub bit128-byte_reverse :
    (a : Bitboard) (p : ℕ) → p < 128 → bit128 (byte_reverse a) p ≡ bit128 a (reversed p)
unfolding bit128 byte_reverse
bit128-byte_reverse a p h = elim (Bool-cases (ltb p 64)) [
  | inl first ↦
      let there : 8 * (7 - p / 8) + p % 8 ≡ reversed p - 64 = ground arith in
      rw first (digit-swap_bytes a.p1 p (ground arith) ∙ ground (arith, ap (digit a.p1) there))
  | inr second ↦
      let there : 8 * (7 - (p - 64) / 8) + (p - 64) % 8 ≡ reversed p = ground arith in
      rw second
        (digit-swap_bytes a.p0 (p - 64) (ground arith) ∙ ground (arith, ap (digit a.p0) there))
]

pub byte_reverse-IsWords : (a : Bitboard) → IsWords (byte_reverse a)
unfolding byte_reverse swap_bytes
byte_reverse-IsWords a = record { lane0 = reverse_bytes-lt 8 a.p1; lane1 = reverse_bytes-lt 8 a.p0 }

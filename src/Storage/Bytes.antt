-- ===== src/Storage/Bytes.antt =====
-- Byte strings as the readers of the Storage layer take them apart: slices of a buffer, checked and
-- unchecked, and little-endian words (`read_u16_le` and `read_u64_le` of
-- crates/attic-storage/src/book.rs). A byte is a number below 256.
pub mod Laws
use attic_shogi.Prelude.{
  ℕ, zero, suc, ◌+◌, ◌-◌, ◌*◌, ◌/◌, ◌%◌, ◌^◌, Bool, ◌&&◌, leb, ltb, if◌then◌else◌, List, [], ◌∷◌,
  Option, none, some, get_or, length,
}

abbrev pub Bytes : Type 0
Bytes = List ℕ

abbrev pub take {ℓ} : {A : Type ℓ} → ℕ → List A → List A
take zero xs = []
take (suc n) [] = []
take (suc n) (x ∷ xs) = x ∷ take n xs

abbrev pub drop {ℓ} : {A : Type ℓ} → ℕ → List A → List A
drop zero xs = xs
drop (suc n) [] = []
drop (suc n) (x ∷ xs) = drop n xs

-- `&data[start..start + n]`, for a slice known to be in bounds.
abbrev pub slice : (start n : ℕ) → Bytes → Bytes
slice start n data_ = take n (drop start data_)

-- `data.get(start..end)`.
abbrev pub get_range : Bytes → (start end : ℕ) → Option Bytes
get_range data_ start end =
    if leb start end && leb end (length data_) then some (slice start (end - start) data_) else none

-- `a.checked_add(b)` and `a.checked_mul(b)` on `u64`, also on `usize`, which has 64 bits.
abbrev pub checked : ℕ → Option ℕ
checked n = if ltb n (2 ^ 64) then some n else none

-- `from_le_bytes`.
unfoldable pub from_le_bytes : Bytes → ℕ
from_le_bytes [] = 0
from_le_bytes (b ∷ bs) = b + 256 * from_le_bytes bs

-- `to_le_bytes` of a word of `n` bytes.
unfoldable pub to_le_bytes : (n : ℕ) → ℕ → Bytes
to_le_bytes zero x = []
to_le_bytes (suc n) x = x % 256 ∷ to_le_bytes n (x / 256)

unfoldable pub read_u16_le : Bytes → ℕ
unfolding from_le_bytes
read_u16_le b = from_le_bytes (get_or b 0 0 ∷ get_or b 1 0 ∷ [])

unfoldable pub read_u64_le : Bytes → ℕ
unfolding from_le_bytes
read_u64_le b = from_le_bytes (slice 0 8 b)

-- ===== src/Search/History/Shared.antt =====
-- The histories that the threads of a node share: the sizes of their tables and the slots of keys.
use attic_shogi.Prelude.{
  ℕ, zero, suc, ◌+◌, ◌-◌, ◌*◌, ◌%◌, ◌^◌, ◌<◌, ◌≡◌, refl, ap, ◌∙◌, some, [], ◌∷◌, length,
  length-replicate, replicate, ==_ne, arith,
}
use native.Mathlib.Nat.{
  one-le-pow, mod-lt, mod_self, pow-zero, pow-suc, add-suc, add-zero, mul-one, mul_assoc,
}
use attic_shogi.Prelude.Bits.{bit_and_mask}
use attic_shogi.Prelude.Int.{ℤ, pos}
use attic_shogi.State.Piece.{Color, Piece}
use attic_shogi.State.Square.{Square, IsSquare}
use attic_shogi.Search.History.Indices.{
  piece_code-lt, piece_code-injective, channel_index-lt, color_index-lt, CorrChannel-injective,
  Color-injective,
}
use attic_shogi.Search.History.Update.{Within, fill-Within}
use attic_shogi.Search.History.{
  SharedHistories, new_shared, corr_index, pawn_index, CorrChannel, fill, correction_history_d,
  pawn_history_d, correction_init, corrhist_base_size, corr_slot_len, pawn_history_base_size,
  pawn_slot_len, pawn_init, Table,
}

-- The shared tables of a node of 2 ^ k threads.
pub record Sized (k : ℕ) (h : SharedHistories) : Type 0 where
  pub threads : h.thread_count ≡ 2 ^ k
  pub corr_mask_eq : h.corr_mask ≡ 2 ^ (k + 16) - 1
  pub corr_length : length h.correction ≡ 2 ^ (k + 16) * 8
  pub pawn_mask_eq : h.pawn_mask ≡ 2 ^ (k + 13) - 1
  pub pawn_length : length h.pawn ≡ 2 ^ (k + 13) * 2592

two_pow-add : (k j : ℕ) → 2 ^ (k + j) ≡ 2 ^ k * 2 ^ j
two_pow-add k zero = rw (add-zero, pow-zero, mul-one) refl
two_pow-add k (suc j) = rw (add-suc, pow-suc, pow-suc, two_pow-add k j) (mul_assoc _ _ _)

pub length-fill : (t : Table) (v : ℤ) → length (fill t v) ≡ length t
unfolding fill
length-fill [] v = refl
length-fill (x ∷ t) v = ap suc (length-fill t v)

-- The tables of a node of 2 ^ k threads, as `new_shared` makes them.
abbrev pub shared_tables : ℕ → SharedHistories
shared_tables k = record {
  thread_count = 2 ^ k;
  correction =
      fill (replicate (2 ^ k * corrhist_base_size * corr_slot_len) (pos 0)) correction_init;
  corr_mask = 2 ^ k * corrhist_base_size - 1;
  pawn = fill (replicate (2 ^ k * pawn_history_base_size * pawn_slot_len) (pos 0)) pawn_init;
  pawn_mask = 2 ^ k * pawn_history_base_size - 1;
}

-- A node of 2 ^ k threads gets tables of 2 ^ (k + 16) and 2 ^ (k + 13) slots, the masks that select
-- them, and entries within the limits of the tables.
pub new_shared-Sized :
    (k : ℕ)
    → (new_shared (2 ^ k) ≡ some (shared_tables k))
      × Sized k (shared_tables k)
      × Within correction_history_d (shared_tables k).correction
      × Within pawn_history_d (shared_tables k).pawn
unfolding new_shared
new_shared-Sized k = (
  rw
      (
        bit_and_mask k (2 ^ k),
        mod_self (2 ^ k),
        ==_ne (2 ^ k) 0 (omega (arith, one-le-pow k 2 (omega arith))),
      )
      refl,
  record {
    threads = refl;
    corr_mask_eq = rw (two_pow-add k 16) refl;
    corr_length = length-fill _ _ ∙ length-replicate _ (pos 0) ∙ rw (two_pow-add k 16) refl;
    pawn_mask_eq = rw (two_pow-add k 13) refl;
    pawn_length = length-fill _ _ ∙ length-replicate _ (pos 0) ∙ rw (two_pow-add k 13) refl;
  },
  fill-Within correction_history_d _ correction_init (omega arith),
  fill-Within pawn_history_d _ pawn_init (omega arith),
)

-- In tables of 2 ^ k threads, every key, colour and channel has its entry, and two of them share an entry only when the colours, the channels and the
-- low 16 + k bits of the keys agree.
pub corr_index-bounds :
    (k : ℕ) (h : SharedHistories)
    → Sized k h
    → (key key' : ℕ) (c c' : Color) (ch ch' : CorrChannel)
    → (corr_index h key c ch < length h.correction)
      × (corr_index h key c ch ≡ corr_index h key' c' ch'
          → (key % 2 ^ (k + 16) ≡ key' % 2 ^ (k + 16)) × (c ≡ c') × (ch ≡ ch'))
unfolding corr_index
corr_index-bounds k h sized key key' c c' ch ch' =
    let bound = mod-lt key {m = 2 ^ (k + 16)} (one-le-pow (k + 16) 2 (omega arith)) in
    let l1 = channel_index-lt ch in
    let l2 = channel_index-lt ch' in
    let l3 = color_index-lt c in
    let l4 = color_index-lt c' in
    rw
      (sized.corr_mask_eq, sized.corr_length, bit_and_mask (k + 16) key, bit_and_mask (k + 16) key')
      (
        omega arith,
        λ e. (
          omega arith,
          Color-injective c c' (omega arith),
          CorrChannel-injective ch ch' (omega arith),
        ),
      )

-- The same of the pawn table, for squares of the board: an entry is shared only by one piece on one square, and keys that agree in their
-- low 13 + k bits.
pub pawn_index-bounds :
    (k : ℕ) (h : SharedHistories)
    → Sized k h
    → (key key' : ℕ) (p q : Piece) (s t : Square) → IsSquare s
    → IsSquare t
    → (pawn_index h key p s < length h.pawn)
      × (pawn_index h key p s ≡ pawn_index h key' q t
          → (key % 2 ^ (k + 13) ≡ key' % 2 ^ (k + 13)) × (p ≡ q) × (s ≡ t))
unfolding pawn_index
pawn_index-bounds k h sized key key' p q s t hs ht =
    let bound = mod-lt key {m = 2 ^ (k + 13)} (one-le-pow (k + 13) 2 (omega arith)) in
    let l1 = piece_code-lt p in
    let l2 = piece_code-lt q in
    rw
      (sized.pawn_mask_eq, sized.pawn_length, bit_and_mask (k + 13) key, bit_and_mask (k + 13) key')
      (omega arith, λ e. (omega arith, piece_code-injective p q (omega arith), omega arith))

-- ===== src/Storage/Table/Laws.antt =====
-- A valid table stays valid, every lookup stays inside it, and what is written at a slot is found
-- again.
use attic_shogi.Prelude.{
  ℕ, ◌+◌, ◌-◌, ◌*◌, ◌/◌, ◌%◌, ◌^◌, ◌<◌, bit_and, bit_or, ◌≡◌, refl, ap, ◌∙◌, true, false, ◌==◌, [],
  Option, none, some, get_or, set, length, length-set, get_or-set_self, ◌⊎◌, inl, inr, arith,
}
use attic_shogi.Prelude.Bits.{
  bit_and_step, bit_or_step, bit_and_mask, eq_of_digits, digit-bit_or, digit-zero,
}
use native.Mathlib.Nat.{mul-le-mul_right}
use attic_shogi.Storage.Entry.{TtEntry, Save, zero_entry, read, is_occupied, save}
use attic_shogi.Storage.Entry.Laws.{IsSave, save-key}
use attic_shogi.Storage.Table.{
  cluster_size, Cluster, TranspositionTable, mul_hi64, cluster_index, find_key, TtSlot, Located,
  locate_in, locate, probe, write_at,
}
use attic_shogi.Storage.Table.Find.{find_key-lt, find_key-set, replace_from-lt}
use attic_shogi.Storage.Table.Valid.{IsTable}

bit_or-zero : (a : ℕ) → bit_or a 0 ≡ a
bit_or-zero a = eq_of_digits _ _ λ k. omega (arith, digit-bit_or a 0 k, digit-zero k)

-- A single bit set in an even number.
set_low : (a b : ℕ) → b < 2 → bit_or (a * 2) b ≡ a * 2 + b
set_low a b h =
    let half : a * 2 / 2 ≡ a = omega arith in
    let rest : b / 2 ≡ 0 = omega arith in
    bit_or_step (a * 2) b ∙ rw (half, rest, bit_or-zero a) (omega arith)

cluster_index_lem : (n key s : ℕ) → cluster_index n key s ≡ mul_hi64 key n / 2 * 2 + s % 2
unfolding cluster_index mul_hi64
cluster_index_lem n key s =
    let q : ℕ = mul_hi64 key n in
    let even : bit_and q (2 ^ 64 - 2) ≡ q / 2 * 2 =
      omega (arith, bit_and_step q (2 ^ 64 - 2), bit_and_mask 63 (q / 2)) in
    let low : bit_or (q / 2 * 2) (s % 2) ≡ q / 2 * 2 + s % 2 =
      set_low (q / 2) (s % 2) (omega arith) in
    rw (even, bit_and_mask 1 s) low

-- A product with a 64-bit word, cut at 64 bits, stays below the other factor.
mul_hi64-lt : (a b : ℕ) → a < 2 ^ 64 → 0 < b → mul_hi64 a b < b
unfolding mul_hi64
mul_hi64-lt a b h p = omega (arith, mul-le-mul_right {m = a} {n = 2 ^ 64 - 1} b (omega arith))

-- The index of a cluster is in range, and its parity is the side to move, so that the two sides
-- never share a cluster: for an even number of clusters, a 64-bit key and side 0 or 1.
pub cluster_index-lt :
    (n key s : ℕ)
    → n % 2 ≡ 0
    → 0 < n
    → key < 2 ^ 64
    → s < 2
    → (cluster_index n key s < n) × (cluster_index n key s % 2 ≡ s)
cluster_index-lt n key s even p k h = (
  omega (arith, cluster_index_lem n key s, mul_hi64-lt key n k p),
  omega (arith, cluster_index_lem n key s),
)

-- A slot of the table for the side to move.
pub record IsSlot (t : TranspositionTable) (side_to_move : ℕ) (slot : TtSlot) : Type 0 where
  pub cluster : slot.cluster < length t.table
  pub side : slot.cluster % 2 ≡ side_to_move
  pub entry : slot.entry < cluster_size

module _ {t : TranspositionTable} (v : IsTable t) (sized : 0 < length t.table)
    (key side_to_move : ℕ) (fits : key < 2 ^ 64) (side : side_to_move < 2) where
  abbrev here : ℕ
  here = cluster_index (length t.table) key side_to_move

  abbrev cluster : Cluster
  cluster = get_or t.table here []

  in_range : (here < length t.table) × (here % 2 ≡ side_to_move)
  in_range = cluster_index-lt (length t.table) key side_to_move v.even sized fits side

  locate_in-entry :
      (o : Option ℕ)
      → ((j : ℕ) → o ≡ some j → j < cluster_size)
      → (locate_in cluster t.generation8 here o).slot.entry < cluster_size
  unfolding locate_in
  locate_in-entry none h =
      replace_from-lt cluster t.generation8 2 1 0 cluster_size (omega arith) (omega arith)
  locate_in-entry (some j) h = h j refl

  nonempty : (length t.table == 0) ≡ false
  nonempty = ground arith

  locate_in-cluster : (o : Option ℕ) → (locate_in cluster t.generation8 here o).slot.cluster ≡ here
  unfolding locate_in
  locate_in-cluster none = refl
  locate_in-cluster (some j) = refl

  -- A lookup in a valid sized table never panics; its slot is in the table, in a cluster of the
  -- parity of the side to move. The key has 64 bits and the side is 0 or 1.
  pub locate-IsSlot :
      (l : Located) × (locate t key side_to_move ≡ some l) × IsSlot t side_to_move l.slot
  unfolding locate
  locate-IsSlot =
      let o = find_key cluster (key % 2 ^ 16) 0 in
      (
        locate_in cluster t.generation8 here o,
        rw nonempty refl,
        record {
          cluster = rw (locate_in-cluster o) in_range.0;
          side = rw (locate_in-cluster o) in_range.1;
          entry = locate_in-entry o λ j e.
              omega
                (arith, (find_key-lt cluster (key % 2 ^ 16) 0 j e).1, v.clusters here in_range.0);
        },
      )

  abbrev entry_at : TtSlot → TtEntry
  entry_at slot = get_or (get_or t.table slot.cluster []) slot.entry zero_entry

  -- What a lookup gives once `s` is written at the slot.
  abbrev Rewritten : Save → TtSlot → Type 0
  Rewritten s slot =
      (after : Located) × (locate (write_at t slot s) key side_to_move ≡ some after)
      × (after.found ≡ true)
      × (after.slot ≡ slot)
      × (after.tt_data ≡ read (save (entry_at slot) s))

  locate-set :
      (c : Cluster) (j : ℕ)
      → find_key c (key % 2 ^ 16) 0 ≡ some j
      → locate (record t { table = set t.table here c }) key side_to_move
        ≡ some (locate_in c t.generation8 here (some j))
  unfolding locate
  locate-set c j found =
      rw (length-set t.table here c, nonempty, get_or-set_self t.table here c [] in_range.0, found)
        refl

  Rewritten-at :
      (s : Save) (j : ℕ)
      → IsSave s
      → s.key ≡ key % 2 ^ 16
      → j < cluster_size
      → (find_key cluster (key % 2 ^ 16) 0 ≡ some j) ⊎ (find_key cluster (key % 2 ^ 16) 0 ≡ none)
      → Rewritten s (record { cluster = here; entry = j })
  unfolding write_at locate_in
  Rewritten-at s j w same p f =
      let e = save (get_or cluster j zero_entry) s in
      let c = set cluster j e in
      let inside : j < length cluster = omega (arith, v.clusters here in_range.0) in
      let there : get_or c j zero_entry ≡ e = get_or-set_self cluster j e zero_entry inside in
      let found : find_key c (key % 2 ^ 16) 0 ≡ some j =
        find_key-set cluster (key % 2 ^ 16) 0 j j e inside ((save-key _ s w).0 ∙ same) (omega arith)
          f in
      (
        locate_in c t.generation8 here (some j),
        locate-set c j found,
        ap is_occupied there ∙ (save-key _ s w).1,
        refl,
        ap read there,
      )

  located-Rewritten :
      (s : Save) (o : Option ℕ)
      → IsSave s
      → s.key ≡ key % 2 ^ 16
      → find_key cluster (key % 2 ^ 16) 0 ≡ o
      → (locate_in cluster t.generation8 here o).slot.entry < cluster_size
      → Rewritten s (locate_in cluster t.generation8 here o).slot
  unfolding locate_in
  located-Rewritten s none w same e p = Rewritten-at s _ w same p (inr e)
  located-Rewritten s (some j) w same e p = Rewritten-at s j w same p (inl e)

  -- What is written at the slot of a lookup is found by the next lookup of the same key and side,
  -- hit or miss: it is a hit at the same slot, with the data that `save` leaves there. The table is
  -- valid and sized, the key has 64 bits, the side is 0 or 1, and the arguments of the save are
  -- valid, with the low 16 bits of the key.
  pub locate-write_at :
      (s : Save)
      → IsSave s
      → s.key ≡ key % 2 ^ 16
      → (l : Located) × (locate t key side_to_move ≡ some l) × Rewritten s l.slot
  unfolding locate
  locate-write_at s w same =
      let o = find_key cluster (key % 2 ^ 16) 0 in
      let l = locate_in cluster t.generation8 here o in
      (
        l,
        rw nonempty refl,
        located-Rewritten s o w same refl (
            locate_in-entry o λ j e.
              omega
                (arith, (find_key-lt cluster (key % 2 ^ 16) 0 j e).1, v.clusters here in_range.0)),
      )

-- `locate` is `probe` with a location in place of a borrow: the two give the same answer for every
-- table, key and side.
pub locate-eq_probe :
    (t : TranspositionTable) (key side_to_move : ℕ)
    → locate t key side_to_move ≡ probe t key side_to_move
unfolding locate probe
locate-eq_probe t key side_to_move = refl

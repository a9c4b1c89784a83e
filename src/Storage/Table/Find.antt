-- ===== src/Storage/Table/Find.antt =====
-- The search of a key in a cluster.
use attic_shogi.Prelude.{
  ℕ, zero, suc, ◌+◌, ◌<◌, ◌≡◌, ap, ◌⊎◌, ==_refl, ◌≤◌, ◌==◌, [], ◌∷◌, none, some, set, length, arith,
  Bool-cases, inl, inr,
}
use attic_shogi.Storage.Entry.{TtEntry}
use attic_shogi.Storage.Table.{Cluster, find_key, replace_from}

-- The place of an entry that is found is in the cluster.
pub find_key-lt : (c : Cluster) (k i m : ℕ) → find_key c k i ≡ some m → (i ≤ m) × (m < i + length c)
unfolding find_key
find_key-lt [] k i m h = ground (arith, h)
find_key-lt (e ∷ es) k i m h = ground (arith, h, find_key-lt es k (suc i) m)

-- The place that is written with the key is the one where it is found next.
pub find_key-set :
    (c : Cluster) (k i j m : ℕ) (e : TtEntry)
    → j < length c
    → e.key ≡ k
    → i + j ≡ m
    → (find_key c k i ≡ some m) ⊎ (find_key c k i ≡ none)
    → find_key (set c j e) k i ≡ some m
unfolding find_key
find_key-set [] k i j m e p h q f = absurd (omega arith)
find_key-set (x ∷ xs) k i zero m e p h q f = rw (h, ==_refl k) (ap some (omega arith))
find_key-set (x ∷ xs) k i (suc j) m e p h q f = elim (Bool-cases (x.key == k)) [
  | inl same ↦ ground (arith, same, f)
  | inr other ↦
      rw other (find_key-set xs k (suc i) j m e (omega arith) h (omega arith) (rw other at f))
]

-- The entry to replace is in the cluster.
pub replace_from-lt :
    (c : Cluster) (generation left i replace n : ℕ)
    → replace < n
    → i + left ≤ n
    → replace_from c generation left i replace < n
unfolding replace_from
replace_from-lt c generation zero i replace n h p = h
replace_from-lt c generation (suc left) i replace n h p =
    replace_from-lt c generation left (suc i) _ n (ground arith) (omega arith)

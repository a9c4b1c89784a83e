-- ===== src/Storage/Table/Valid.antt =====
-- The tables that the program can reach.
use attic_shogi.Prelude.{
  ℕ, zero, suc, ◌+◌, ◌*◌, ◌%◌, ◌^◌, ◌≤◌, ◌<◌, ◌≡◌, refl, ap, ◌∙◌, Bool-cases, inl, inr, ◌==◌, List,
  [], ◌∷◌, map, get_or, set, length, length-set, length-replicate, get_or-replicate, arith,
}
use attic_shogi.Prelude.Bits.{bit_and_mask}
use attic_shogi.Storage.Entry.{TtEntry, Save, zero_entry}
use attic_shogi.Storage.Table.{
  cluster_size, Cluster, zero_cluster, TranspositionTable, new, new_cluster_count, resize, clear,
  new_search, TtSlot, write_at, count_young, count_sample, hashfull,
}

-- An even number of clusters, each of three entries, and a generation of five bits.
pub record IsTable (t : TranspositionTable) : Type 0 where
  pub even : length t.table % 2 ≡ 0
  pub clusters : (i : ℕ) → i < length t.table → length (get_or t.table i []) ≡ cluster_size
  pub generation : t.generation8 < 2 ^ 5

-- What the program does to a table, from a new one on.
pub data Reached : TranspositionTable → Type 0 where
  start : Reached new
  resized : {t : TranspositionTable} (mb_size : ℕ) → Reached t → Reached (resize t mb_size)
  cleared : {t : TranspositionTable} → Reached t → Reached (clear t)
  searched : {t : TranspositionTable} → Reached t → Reached (new_search t)
  wrote :
      {t : TranspositionTable} (slot : TtSlot) (s : Save) → Reached t → Reached (write_at t slot s)

new_cluster_count-even : (mb_size : ℕ) → new_cluster_count mb_size % 2 ≡ 0
unfolding new_cluster_count
new_cluster_count-even mb_size = omega arith

length-map {ℓ κ} :
    {A : Type ℓ} {B : Type κ} (f : A → B) (xs : List A) → length (map f xs) ≡ length xs
length-map f [] = refl
length-map f (x ∷ xs) = ap suc (length-map f xs)

resize-IsTable : (t : TranspositionTable) (mb_size : ℕ) → IsTable t → IsTable (resize t mb_size)
unfolding resize
resize-IsTable t mb_size v = elim (Bool-cases (new_cluster_count mb_size == length t.table)) [
  | inl same ↦ rw same v
  | inr other ↦ rw other (record {
    even =
        rw (length-replicate (new_cluster_count mb_size) zero_cluster)
          (new_cluster_count-even mb_size);
    clusters = λ i p. ap length (
        get_or-replicate (new_cluster_count mb_size) i zero_cluster []
          (rw (length-replicate (new_cluster_count mb_size) zero_cluster) at p));
    generation = v.generation;
  })
]

length-cleared :
    (cs : List Cluster) (i : ℕ)
    → length (get_or (map (λ (c : Cluster). map (λ e. zero_entry) c) cs) i [])
      ≡ length (get_or cs i [])
length-cleared [] i = refl
length-cleared (c ∷ cs) zero = length-map _ c
length-cleared (c ∷ cs) (suc i) = length-cleared cs i

clear-IsTable : (t : TranspositionTable) → IsTable t → IsTable (clear t)
unfolding clear
clear-IsTable t v = record {
  even = rw (length-map (λ (c : Cluster). map (λ e. zero_entry) c) t.table) v.even;
  clusters = λ i p.
      length-cleared t.table i
      ∙ v.clusters i (rw (length-map (λ (c : Cluster). map (λ e. zero_entry) c) t.table) at p);
  generation = omega arith;
}

new_search-IsTable : (t : TranspositionTable) → IsTable t → IsTable (new_search t)
unfolding new_search
new_search-IsTable t v = record {
  even = v.even;
  clusters = v.clusters;
  generation = omega (arith, bit_and_mask 5 ((t.generation8 + 1) % 2 ^ 8));
}

-- A write keeps the length of every cluster.
length-written :
    (cs : List Cluster) (j i k : ℕ) (e : TtEntry)
    → length (get_or (set cs j (set (get_or cs j []) k e)) i []) ≡ length (get_or cs i [])
length-written [] j i k e = refl
length-written (c ∷ cs) zero zero k e = length-set c k e
length-written (c ∷ cs) zero (suc i) k e = refl
length-written (c ∷ cs) (suc j) zero k e = refl
length-written (c ∷ cs) (suc j) (suc i) k e = length-written cs j i k e

pub write_at-IsTable :
    (t : TranspositionTable) (slot : TtSlot) (s : Save) → IsTable t → IsTable (write_at t slot s)
unfolding write_at
write_at-IsTable t slot s v =
    let c = get_or t.table slot.cluster [] in
    record {
      even = rw (length-set t.table slot.cluster (set c slot.entry _)) v.even;
      clusters = λ i p.
          length-written t.table slot.cluster i slot.entry _
          ∙ v.clusters i (rw (length-set t.table slot.cluster (set c slot.entry _)) at p);
      generation = v.generation;
    }

-- Every table that the program reaches has an even number of clusters of three entries each, and a
-- generation below 32, whatever sizes it asked for and wherever it wrote.
pub Reached-IsTable : {t : TranspositionTable} → Reached t → IsTable t
Reached-IsTable start = record {
  even = refl;
  clusters = λ i p. absurd (omega arith);
  generation = omega arith;
}
Reached-IsTable (resized mb_size r) = resize-IsTable _ mb_size (Reached-IsTable r)
Reached-IsTable (cleared r) = clear-IsTable _ (Reached-IsTable r)
Reached-IsTable (searched r) = new_search-IsTable _ (Reached-IsTable r)
Reached-IsTable (wrote slot s r) = write_at-IsTable _ slot s (Reached-IsTable r)

count_young-le :
    (generation max_age : ℕ) (c : Cluster) → count_young generation max_age c ≤ length c
unfolding count_young
count_young-le generation max_age [] = omega arith
count_young-le generation max_age (e ∷ es) = ground (arith, count_young-le generation max_age es)

count_sample-le :
    (n generation max_age : ℕ) (cs : List Cluster)
    → ((i : ℕ) → i < length cs → length (get_or cs i []) ≡ cluster_size)
    → count_sample n generation max_age cs ≤ n * cluster_size
unfolding count_sample
count_sample-le zero generation max_age cs h = omega arith
count_sample-le (suc n) generation max_age [] h = omega arith
count_sample-le (suc n) generation max_age (c ∷ cs) h = omega (
  arith,
  count_young-le generation max_age c,
  h 0 (omega arith),
  count_sample-le n generation max_age cs (λ i p. h (suc i) (omega arith)),
)

-- The occupancy of a reachable table is at most 1000 permille, for every age.
pub hashfull-le : {t : TranspositionTable} (max_age : ℕ) → Reached t → hashfull t max_age ≤ 1000
unfolding hashfull
hashfull-le {t} max_age r =
    omega (arith, count_sample-le 1000 t.generation8 max_age t.table (Reached-IsTable r).clusters)

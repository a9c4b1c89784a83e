-- ===== src/Storage/Table.antt =====
-- The clusters of the transposition table and its operations, crates/attic-storage/src/tt.rs. A
-- store of atomics is threaded as a value: one thread at a time. A `usize` has 64 bits.
pub mod Find
pub mod Valid
pub mod Laws
use attic_shogi.Prelude.{
  ℕ, zero, suc, ◌+◌, ◌-◌, ◌*◌, ◌/◌, ◌%◌, ◌^◌, bit_and, bit_or, Bool, true, false, ◌&&◌, ◌==◌, ltb,
  leb, if◌then◌else◌, List, [], ◌∷◌, map, Option, none, some, get_or, set, length, replicate,
}
use attic_shogi.Prelude.Int.{ltb_ℤ}
use attic_shogi.Storage.Entry.{
  TtEntry, TtData, Save, zero_entry, no_data, read, is_occupied, relative_age, replace_priority,
  save, generation_mask,
}

abbrev pub cluster_size : ℕ
cluster_size = 3

-- `size_of::<Cluster>()`, which the source asserts.
abbrev pub cluster_bytes : ℕ
cluster_bytes = 32

-- `[TTEntry; CLUSTER_SIZE]`.
abbrev pub Cluster : Type 0
Cluster = List TtEntry

abbrev pub zero_cluster : Cluster
zero_cluster = replicate cluster_size zero_entry

pub record TranspositionTable : Type 0 where
  pub table : List Cluster
  pub generation8 : ℕ

-- `TranspositionTable::new`.
abbrev pub new : TranspositionTable
new = record { table = []; generation8 = 0 }

unfoldable pub new_cluster_count : (mb_size : ℕ) → ℕ
new_cluster_count mb_size = mb_size * 1024 * 1024 % 2 ^ 64 / cluster_bytes

unfoldable pub resize : TranspositionTable → (mb_size : ℕ) → TranspositionTable
unfolding new_cluster_count
resize t mb_size =
    if new_cluster_count mb_size == length t.table
    then t
    else record t { table = replicate (new_cluster_count mb_size) zero_cluster }

unfoldable pub clear : TranspositionTable → TranspositionTable
clear t = record { table = map (λ (c : Cluster). map (λ e. zero_entry) c) t.table; generation8 = 0 }

unfoldable pub new_search : TranspositionTable → TranspositionTable
new_search t = record t { generation8 = bit_and ((t.generation8 + 1) % 2 ^ 8) generation_mask }

-- The entries of one cluster that `hashfull` counts.
unfoldable pub count_young : (generation max_age : ℕ) → Cluster → ℕ
count_young generation max_age [] = 0
count_young generation max_age (e ∷ es) =
    let rest = count_young generation max_age es in
    if is_occupied e && leb (relative_age e.gen_bound8 generation) max_age then suc rest else rest

-- The sum over the first `n` clusters.
unfoldable pub count_sample : (n generation max_age : ℕ) → List Cluster → ℕ
unfolding count_young
count_sample zero generation max_age cs = 0
count_sample (suc n) generation max_age [] = 0
count_sample (suc n) generation max_age (c ∷ cs) =
    count_young generation max_age c + count_sample n generation max_age cs

unfoldable pub hashfull : TranspositionTable → (max_age : ℕ) → ℕ
unfolding count_sample
hashfull t max_age = count_sample 1000 t.generation8 max_age t.table / cluster_size

unfoldable pub mul_hi64 : ℕ → ℕ → ℕ
mul_hi64 a b = a * b / 2 ^ 64 % 2 ^ 64

-- `cluster_index`, on the number of clusters.
unfoldable pub cluster_index : (count key side_to_move : ℕ) → ℕ
unfolding mul_hi64
cluster_index count key side_to_move =
    bit_or (bit_and (mul_hi64 key count) (2 ^ 64 - 2)) (bit_and side_to_move 1)

-- The first entry with the key, from entry `i` on.
unfoldable pub find_key : Cluster → (key16 i : ℕ) → Option ℕ
find_key [] key16 i = none
find_key (e ∷ es) key16 i =
    let rest = find_key es key16 (suc i) in if e.key == key16 then some i else rest

-- The loop over the entries from `i` on, `left` of them, for the least valuable one.
unfoldable pub replace_from : Cluster → (generation left i replace : ℕ) → ℕ
unfolding replace_priority
replace_from c generation zero i replace = replace
replace_from c generation (suc left) i replace =
    let priority = λ (j : ℕ). replace_priority (get_or c j zero_entry) generation in
    replace_from c generation left (suc i)
      (if ltb_ℤ (priority i) (priority replace) then i else replace)

-- `TtSlot`.
pub record TtSlot : Type 0 where
  pub cluster : ℕ
  pub entry : ℕ

pub record Located : Type 0 where
  pub found : Bool
  pub tt_data : TtData
  pub slot : TtSlot

-- `locate` in a cluster: the matching entry, or the one to replace.
unfoldable pub locate_in : Cluster → (generation ci : ℕ) → Option ℕ → Located
unfolding replace_from read is_occupied
locate_in c generation ci (some i) = record {
  found = is_occupied (get_or c i zero_entry);
  tt_data = read (get_or c i zero_entry);
  slot = record { cluster = ci; entry = i };
}
locate_in c generation ci none = record {
  found = false;
  tt_data = no_data;
  slot = record { cluster = ci; entry = replace_from c generation (cluster_size - 1) 1 0 };
}

-- `locate`; `none` is the panic on an unsized table.
unfoldable pub locate : TranspositionTable → (key side_to_move : ℕ) → Option Located
unfolding cluster_index locate_in find_key
locate t key side_to_move =
    if length t.table == 0
    then none
    else (let ci = cluster_index (length t.table) key side_to_move in
        let c = get_or t.table ci [] in
        some (locate_in c t.generation8 ci (find_key c (key % 2 ^ 16) 0)))

-- `probe`: the same search; the writer that it returns borrows the entry that the slot names here.
unfoldable pub probe : TranspositionTable → (key side_to_move : ℕ) → Option Located
unfolding cluster_index locate_in find_key
probe t key side_to_move =
    if length t.table == 0
    then none
    else (let ci = cluster_index (length t.table) key side_to_move in
        let c = get_or t.table ci [] in
        some (locate_in c t.generation8 ci (find_key c (key % 2 ^ 16) 0)))

-- `write_at`; `s.key` is the low 16 bits of the key.
unfoldable pub write_at : TranspositionTable → TtSlot → Save → TranspositionTable
unfolding save
write_at t slot s =
    let c = get_or t.table slot.cluster [] in
    record t {
      table = set t.table slot.cluster (set c slot.entry (save (get_or c slot.entry zero_entry) s));
    }

-- `TTWriter::write`, on the entry of a probe.
unfoldable pub write : TranspositionTable → TtSlot → Save → TranspositionTable
unfolding write_at
write t writer s = write_at t writer s

-- ===== src/Search/History/Races.antt =====
-- `apply_gravity_atomic` of several threads on one shared table: a relaxed load and a relaxed store,
-- between which other threads may run.
use attic_shogi.Prelude.{
  ℕ, ◌≤◌, ◌<◌, ◌≡◌, ◌≢◌, refl, sym, fun_ext, ap, set, set-set, ◌==◌, if◌then◌else◌, ==_refl, ==_ne,
  Option, none, some, arith,
}
use mathlib.Core.Option.{none-ne-some, some-injective}
use attic_shogi.Prelude.Int.{ℤ}
use attic_shogi.Search.History.{Table, get, update, magnitude, apply_gravity}
use attic_shogi.Search.History.Gravity.{apply_gravity-within}
use attic_shogi.Search.History.Update.{Within, set-Within}

-- What a thread holds between its load and its store.
pub record Pending : Type 0 where
  pub cell : ℕ
  pub bonus : ℤ
  pub val : ℤ

-- The table and, of each thread, the update under way.
pub record Shared : Type 0 where
  pub table : Table
  pub threads : ℕ → Option Pending

unfoldable pub set_thread :
    (ℕ → Option Pending) → (thread : ℕ) → Option Pending → ℕ → Option Pending
set_thread f n v m = if m == n then v else f m

-- `cell.load`, at the index of the entry, of a thread that has no update under way.
unfoldable pub load_entry : (thread cell : ℕ) → (bonus : ℤ) → Shared → Shared
unfolding set_thread get
load_entry n i bonus s = record s {
  threads = set_thread s.threads n (some (record { cell = i; bonus = bonus; val = get s.table i }));
}

-- The formula on the value loaded, and `cell.store`.
unfoldable pub store_entry : (d thread : ℕ) → Pending → Shared → Shared
unfolding set_thread apply_gravity
store_entry d n p s = record {
  table = set s.table p.cell (apply_gravity p.val p.bonus d);
  threads = set_thread s.threads n none;
}

-- One step of some thread on a table of limit `d`.
pub data Step (d : ℕ) (s : Shared) : Shared → Type 0 where
  load :
      (thread i : ℕ) (bonus : ℤ) → s.threads thread ≡ none → Step d s (load_entry thread i bonus s)
  store :
      (thread : ℕ) (p : Pending) → s.threads thread ≡ some p → Step d s (store_entry d thread p s)

-- A table that no thread works on.
abbrev pub idle : Table → Shared
idle t = record { table = t; threads = λ n. none }

pub data Reach (d : ℕ) (t : Table) : Shared → Type 0 where
  start : Reach d t (idle t)
  later : {s u : Shared} → Reach d t s → Step d s u → Reach d t u

-- The table and every value loaded are within the limit.
record IsBounded (d : ℕ) (s : Shared) : Type 0 where
  table_within : Within d s.table
  pending_within : (thread : ℕ) (p : Pending) → s.threads thread ≡ some p → magnitude p.val ≤ d

abbrev val_of : Pending → ℤ
val_of p = p.val

set_thread-within :
    (d : ℕ) (f : ℕ → Option Pending) (n : ℕ) (v : Option Pending)
    → ((m : ℕ) (p : Pending) → f m ≡ some p → magnitude p.val ≤ d)
    → ((p : Pending) → v ≡ some p → magnitude p.val ≤ d)
    → (m : ℕ) (p : Pending) → set_thread f n v m ≡ some p
    → magnitude p.val ≤ d
unfolding set_thread
set_thread-within d f n v h k m p e = ground (arith, h m p, k p)

step-IsBounded :
    (d : ℕ) {s u : Shared} → 0 < d → d ≤ 32767 → IsBounded d s → Step d s u → IsBounded d u
unfolding load_entry store_entry
step-IsBounded d {s = s} p q h (load n i bonus e) = record {
  table_within = h.table_within;
  pending_within = set_thread-within d s.threads n _ h.pending_within (λ r e'.
      let same : get s.table i ≡ r.val = ap val_of (some-injective _ _ e') in
      rw (← same) (h.table_within i));
}
step-IsBounded d {s = s} p q h (store n r e) = record {
  table_within =
      set-Within d s.table r.cell _ h.table_within
        ((apply_gravity-within r.val r.bonus d p q (h.pending_within n r e)).0);
  pending_within =
      set_thread-within d s.threads n none h.pending_within (λ r' e'. absurd (none-ne-some r' e'));
}

reach-IsBounded :
    (d : ℕ) (t : Table) {s : Shared} → 0 < d → d ≤ 32767 → Within d t → Reach d t s → IsBounded d s
reach-IsBounded d t p q h start = record {
  table_within = h;
  pending_within = λ n r e. absurd (none-ne-some r e);
}
reach-IsBounded d t p q h (later r step) = step-IsBounded d p q (reach-IsBounded d t p q h r) step

-- Whatever order the loads and the stores of any number of threads take, every entry of a shared
-- table whose entries are within the limit at first stays within the limit, for a limit from 1 to
-- 32767.
pub races-Within :
    (d : ℕ) (t : Table) (s : Shared)
    → 0 < d
    → d ≤ 32767
    → Within d t
    → Reach d t s
    → Within d s.table
races-Within d t s p q h r = (reach-IsBounded d t p q h r).table_within

-- A load and the store after it, with no step of another thread between, are the update of one thread.
pub store-load-update :
    (d n i : ℕ) (bonus : ℤ) (s : Shared)
    → s.threads n ≡ none
    → (u : Shared) × Step d (load_entry n i bonus s) u × (u.table ≡ update s.table i d bonus)
unfolding load_entry store_entry set_thread update
store-load-update d n i bonus s e = (
  store_entry d n (record { cell = i; bonus = bonus; val = get s.table i })
      (load_entry n i bonus s),
  store n _ (rw (==_refl n) refl),
  refl,
)

-- Two threads can both load an entry before either stores, with this end: the first is done and its
-- update is in the table; the next step, the store of the second, leaves no thread at work and the
-- table that the second update alone gives, so that the first is lost.
pub lost_update :
    (d n m i : ℕ) (b c : ℤ) (t : Table)
    → n ≢ m
    → (first second : Shared) × Reach d t first
      × (first.threads n ≡ none)
      × (first.table ≡ update t i d b)
      × Step d first second
      × (second.threads ≡ (idle t).threads)
      × (second.table ≡ update t i d c)
unfolding load_entry store_entry set_thread update
lost_update d n m i b c t e =
    let p : Pending = record { cell = i; bonus = b; val = get t i } in
    let q : Pending = record { cell = i; bonus = c; val = get t i } in
    let loaded = load_entry m i c (load_entry n i b (idle t)) in
    let first = store_entry d n p loaded in
    let n_ne_m = ==_ne n m e in
    let m_ne_n = ==_ne m n (λ r. e (sym r)) in
    let loads : Reach d t loaded =
      later (later start (load n i b refl)) (load m i c (rw m_ne_n refl)) in
    (
      first,
      store_entry d m q first,
      later loads (store n p (rw (n_ne_m, ==_refl n) refl)),
      rw (==_refl n) refl,
      refl,
      store m q (rw (m_ne_n, ==_refl m) refl),
      fun_ext (λ k. ground arith),
      set-set t i _ _,
    )

-- ===== src/Storage/Book/Rounds.antt =====
-- One round of the loop of `Book::probe`, crates/attic-storage/src/book.rs.
use attic_shogi.Prelude.{
  ℕ, suc, ◌+◌, ◌-◌, ◌/◌, ◌%◌, ◌^◌, ◌≤◌, ◌<◌, ◌≡◌, ◌⊎◌, refl, ap, ◌∙◌, Bool, true, false, ltb, inl,
  inr, Option, none, some, List, arith,
}
use attic_shogi.Prelude.Result.{Result, ok, err}
use attic_shogi.Storage.Bytes.{Bytes}
use attic_shogi.Storage.Book.{
  Book, BookMove, BookError, IndexEntry, Order, less, equal, greater, cmp, read_index_entry, answer,
  probe_loop,
}

ltb-true : (a b : ℕ) → a < b → ltb a b ≡ true
ltb-true a b h = ground arith

pub ltb-false : (a b : ℕ) → b ≤ a → ltb a b ≡ false
ltb-false a b h = ground arith

-- What a probe gives.
abbrev pub Answer : Type 0
Answer = Option (Result BookError (Option (List BookMove)))

abbrev pub Ends : Answer → Type 0
Ends a = (r : Result BookError (Option (List BookMove))) × (a ≡ some r)

-- The middle of a range of a `u64` index, and of its two halves.
pub middle_lem :
    (left right : ℕ)
    → left < right
    → right < 2 ^ 63
    → (((left + (right - left) / 2) % 2 ^ 64 ≡ left + (right - left) / 2)
        × (((left + (right - left) / 2) % 2 ^ 64 + 1) % 2 ^ 64 ≡ left + (right - left) / 2 + 1)
        × (left + (right - left) / 2 < right))
middle_lem left right h w = (omega arith, omega arith, omega arith)

-- What a read of the index gives: an error, the end of the data, or an entry.
pub data Reading : Result BookError (Option IndexEntry) → Type 0 where
  broken : (e : BookError) → Reading (err e)
  ended : Reading (ok none)
  entry : (x : IndexEntry) → Reading (ok (some x))

pub reading :
    (r : Result BookError (Option IndexEntry))
    → (s : Result BookError (Option IndexEntry)) × (r ≡ s) × Reading s
reading (err e) = (_, refl, broken e)
reading (ok none) = (_, refl, ended)
reading (ok (some x)) = (_, refl, entry x)

pub Order-cases : (o : Order) → (o ≡ less) ⊎ (o ≡ equal) ⊎ (o ≡ greater)
Order-cases less = inl refl
Order-cases equal = inr (inl refl)
Order-cases greater = inr (inr refl)

module _ (b : Book) (packed : Bytes) (game_ply : ℕ) (ignore : Bool) where
  pub loop-empty :
      (fuel left right : ℕ)
      → ltb left right ≡ false
      → probe_loop (suc fuel) b packed game_ply ignore left right ≡ some (ok none)
  unfolding probe_loop
  loop-empty fuel left right e = rw (probe_loop, e) refl

  module _ (fuel left right : ℕ) (below : left < right) (small : right < 2 ^ 63) where
    abbrev middle : ℕ
    middle = left + (right - left) / 2

    at_middle :
        {r : Result BookError (Option IndexEntry)}
        → read_index_entry b middle ≡ r
        → read_index_entry b ((left + (right - left) / 2) % 2 ^ 64) ≡ r
    at_middle h = ap (read_index_entry b) (middle_lem left right below small).0 ∙ h

    -- One round, by what is read at the middle and how it compares.
    pub loop-err :
        (e : BookError)
        → read_index_entry b middle ≡ err e
        → probe_loop (suc fuel) b packed game_ply ignore left right ≡ some (err e)
    unfolding probe_loop
    loop-err e h = rw (probe_loop, ltb-true left right below, at_middle h) refl

    pub loop-none :
        read_index_entry b middle ≡ ok none
        → probe_loop (suc fuel) b packed game_ply ignore left right ≡ some (ok none)
    unfolding probe_loop
    loop-none h = rw (probe_loop, ltb-true left right below, at_middle h) refl

    pub loop-less :
        (x : IndexEntry)
        → read_index_entry b middle ≡ ok (some x)
        → cmp packed x.packed ≡ less
        → probe_loop (suc fuel) b packed game_ply ignore left right
          ≡ probe_loop fuel b packed game_ply ignore left middle
    unfolding probe_loop
    loop-less x h o =
        rw (probe_loop, ltb-true left right below, at_middle h, o)
          (ap (λ m. probe_loop fuel b packed game_ply ignore left m)
            (middle_lem left right below small).0)

    pub loop-greater :
        (x : IndexEntry)
        → read_index_entry b middle ≡ ok (some x)
        → cmp packed x.packed ≡ greater
        → probe_loop (suc fuel) b packed game_ply ignore left right
          ≡ probe_loop fuel b packed game_ply ignore (middle + 1) right
    unfolding probe_loop
    loop-greater x h o =
        rw (probe_loop, ltb-true left right below, at_middle h, o)
          (ap (λ m. probe_loop fuel b packed game_ply ignore m right)
            (middle_lem left right below small).1)

    pub loop-equal :
        (x : IndexEntry)
        → read_index_entry b middle ≡ ok (some x)
        → cmp packed x.packed ≡ equal
        → probe_loop (suc fuel) b packed game_ply ignore left right
          ≡ some (answer b x game_ply ignore)
    unfolding probe_loop
    loop-equal x h o = rw (probe_loop, ltb-true left right below, at_middle h, o) refl

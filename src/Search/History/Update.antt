-- ===== src/Search/History/Update.antt =====
-- One update of a history table: which entries it changes and how far.
use attic_shogi.Prelude.{
  ℕ, zero, suc, ◌≤◌, ◌<◌, ◌≡◌, ◌⊎◌, inl, inr, [], ◌∷◌, length, length-set, get_or-set_self,
  get_or-set_ne, set, ℕ_discrete, arith,
}
use attic_shogi.Prelude.Int.{ℤ, pos}
use attic_shogi.Search.History.{Table, get, update, magnitude, apply_gravity, fill}
use attic_shogi.Search.History.Gravity.{apply_gravity-within}

-- Every entry is at most `d` in magnitude.
abbrev pub Within : ℕ → Table → Type 0
Within d t = (i : ℕ) → magnitude (get t i) ≤ d

-- A write of a value within the limit.
pub set-Within :
    (d : ℕ) (t : Table) (i : ℕ) (v : ℤ) → Within d t → magnitude v ≤ d → Within d (set t i v)
unfolding get
set-Within d [] i v h p j = h j
set-Within d (x ∷ t) zero v h p zero = p
set-Within d (x ∷ t) zero v h p (suc j) = h (suc j)
set-Within d (x ∷ t) (suc i) v h p zero = h 0
set-Within d (x ∷ t) (suc i) v h p (suc j) = set-Within d t i v (λ k. h (suc k)) p j

-- An update of an entry of the table keeps the length of the table and every entry within its
-- limit; the entry at the index gets the value of the gravity formula, and a read at any index
-- finds what stood there unless it is the index of the update. Where the limit is positive and
-- fits an `i16`, and every entry is within it.
pub update-Within :
    (d : ℕ) (t : Table) (i j : ℕ) (bonus : ℤ)
    → 0 < d
    → d ≤ 32767
    → Within d t
    → i < length t
    → Within d (update t i d bonus)
      × (length (update t i d bonus) ≡ length t)
      × (get (update t i d bonus) i ≡ apply_gravity (get t i) bonus d)
      × ((get (update t i d bonus) j ≡ get t j) ⊎ (i ≡ j))
unfolding update get
update-Within d t i j bonus p q within h = (
  set-Within d t i _ within ((apply_gravity-within (get t i) bonus d p q (within i)).0),
  length-set t i _,
  get_or-set_self t i _ (pos 0) h,
  elim (ℕ_discrete i j) [
    | yes same ↦ inr same
    | no apart ↦ inl (get_or-set_ne t i j _ (pos 0) apart)
  ],
)

-- A table filled with a value within the limit.
pub fill-Within : (d : ℕ) (t : Table) (v : ℤ) → magnitude v ≤ d → Within d (fill t v)
unfolding fill get
fill-Within d [] v p i = omega arith
fill-Within d (x ∷ t) v p zero = p
fill-Within d (x ∷ t) v p (suc i) = fill-Within d t v p i

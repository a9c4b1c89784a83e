-- ===== src/Storage/Entry/Policy.antt =====
-- The replacement policy of `TTEntry::save`, crates/attic-storage/src/tt.rs, on what a reader sees of an
-- entry.
use attic_shogi.Prelude.{
  ℕ, ◌+◌, ◌*◌, ◌%◌, ◌^◌, ◌<◌, ◌≡◌, refl, Bool, true, false, not, ◌||◌, ◌&&◌, ◌==◌, if◌then◌else◌,
  arith, Bool-cases, inl, inr,
}
use attic_shogi.Prelude.Int.{ℤ, pos, ◌+ℤ◌, ◌-ℤ◌, ltb_ℤ, +ℤ_parts, -ℤ_parts}
use attic_shogi.Storage.Entry.{
  Bound, exact, bound_code, TtData, TtEntry, Save, relative_age, depth_none, read, bit_of,
  keeps_move, replaces, pack, save,
}
use attic_shogi.Storage.Entry.Laws.{
  IsSave, saved, written, read-written, pack_lem, relative_age_lem,
}

-- The key, the generation and the fields of an entry.
pub record View : Type 0 where
  pub key : ℕ
  pub generation : ℕ
  pub fields : TtData

unfoldable pub view : TtEntry → View
view e = record { key = e.key; generation = e.gen_bound8 % 2 ^ 5; fields = read e }

abbrev is_exact : Bound → Bool
is_exact exact = true
is_exact _ = false

-- An entry stays only if the new one is not exact, is of the same position and generation, and is
-- shallower by four plies at least, a pv node counting two plies.
unfoldable pub stays : View → Save → Bool
stays old s =
    not (is_exact s.bound)
    && (s.key == old.key)
    && (s.generation == old.generation)
    && not (ltb_ℤ old.fields.depth (s.depth +ℤ pos (4 + (if s.pv then 2 else 0))))

-- A move of the same position is not forgotten for none.
unfoldable pub merged_move : View → Save → ℕ
merged_move old s = if s.move16 == 0 && (s.key == old.key) then old.fields.move16 else s.move16

-- The entry that a save leaves.
unfoldable pub merge : View → Save → View
unfolding stays merged_move
merge old s =
    if stays old s
    then record old { fields = record old.fields { move16 = merged_move old s } }
    else (record { key = s.key; generation = s.generation; fields = saved s (merged_move old s) })

same_depths :
    (d : ℤ) (d8 : ℕ) (v : Bool)
    → ltb_ℤ (pos d8 -ℤ pos 4) (d -ℤ depth_none +ℤ pos (2 * bit_of v))
      ≡ ltb_ℤ (depth_none +ℤ pos d8) (d +ℤ pos (4 + (if v then 2 else 0)))
same_depths d d8 v = ground (
  arith,
  -ℤ_parts (pos d8) (pos 4),
  -ℤ_parts d depth_none,
  +ℤ_parts (d -ℤ depth_none) (pos (2 * bit_of v)),
  +ℤ_parts depth_none (pos d8),
  +ℤ_parts d (pos (4 + (if v then 2 else 0))),
)

same_age : (g c : ℕ) → g < 2 ^ 8 → c < 2 ^ 5 → (relative_age g c == 0) ≡ (c == g % 2 ^ 5)
same_age g c p q = rw (relative_age_lem g c p) (ground arith)

exact_code : (b : Bound) → (bound_code b == 3) ≡ is_exact b
exact_code b = ground arith

none_of : (a b c d : Bool) → (a || not b || c || not d) ≡ not (not a && b && d && not c)
none_of a b c d = ground arith

replaces_lem :
    (e : TtEntry) (s : Save)
    → IsSave s
    → e.gen_bound8 < 2 ^ 8
    → replaces e s ≡ not (stays (view e) s)
unfolding replaces stays view read
replaces_lem e s v g =
    rw
      (
        replaces,
        exact_code s.bound,
        same_depths s.depth e.depth8 s.pv,
        same_age e.gen_bound8 s.generation g v.generation,
      )
      (none_of (is_exact s.bound) (s.key == e.key) _ (s.generation == e.gen_bound8 % 2 ^ 5))

keeps_move_lem :
    (e : TtEntry) (s : Save)
    → (if keeps_move e s then s.move16 else e.move16) ≡ merged_move (view e) s
unfolding keeps_move merged_move view read
keeps_move_lem e s = ground arith

view-written :
    (e : TtEntry) (s : Save)
    → IsSave s
    → view (written e s)
      ≡ record { key = s.key; generation = s.generation; fields = saved s e.move16 }
unfolding view
view-written e s v = λ i. record {
  key = s.key;
  generation =
      (let low : pack s % 2 ^ 5 ≡ s.generation =
          omega (arith, pack_lem s v.generation, v.generation) in
        low i);
  fields = read-written e s v i;
}

-- The move is stored or not, and then the other fields are.
replaced_with :
    (b : Bool) (e : TtEntry) (s : Save)
    → IsSave s
    → view (written (if b then record e { move16 = s.move16 } else e) s) ≡ record {
      key = s.key;
      generation = s.generation;
      fields = saved s (if b then s.move16 else e.move16);
    }
replaced_with true e s v = view-written (record e { move16 = s.move16 }) s v
replaced_with false e s v = view-written e s v

-- The move is stored or not, and nothing else.
kept_with :
    (b : Bool) (e : TtEntry) (s : Save)
    → view (if b then record e { move16 = s.move16 } else e)
      ≡ record (view e) { fields = record (read e) { move16 = if b then s.move16 else e.move16 } }
unfolding view read
kept_with true e s = refl
kept_with false e s = refl

-- A save of valid arguments into any entry whose byte of generation, bound and pv is below 256 leaves
-- what `merge` says of the entry before. It stays, but for its move, only if the new one is not
-- exact, has its key and generation, and is four plies shallower at least, a pv node counting two
-- plies; else the new key, generation and fields are read back. The move is the new one, unless that
-- is none for the same key.
pub view-save :
    (e : TtEntry) (s : Save) → IsSave s → e.gen_bound8 < 2 ^ 8 → view (save e s) ≡ merge (view e) s
unfolding save merge view
view-save e s v g = elim (Bool-cases (stays (view e) s)) [
  | inl h ↦
      rw (save, merge, replaces_lem e s v g, h)
        (rw (← keeps_move_lem e s) (kept_with (keeps_move e s) e s))
  | inr h ↦
      rw (save, merge, replaces_lem e s v g, h)
        (rw (← keeps_move_lem e s) (replaced_with (keeps_move e s) e s v))
]

-- ===== src/Storage/Entry.antt =====
-- One entry of the transposition table, crates/attic-storage/src/tt.rs: its six packed fields, each
-- read and written as a whole, and the replacement policy. A field is a word of its width; `i16` is
-- its two's complement.
pub mod Laws
pub mod Policy
use attic_shogi.Prelude.{
  ℕ, ◌+◌, ◌-◌, ◌*◌, ◌/◌, ◌%◌, ◌^◌, bit_and, bit_or, Bool, true, false, not, ◌||◌, ◌==◌, ltb,
  if◌then◌else◌,
}
use attic_shogi.Prelude.Int.{ℤ, pos, negsuc, ◌+ℤ◌, ◌-ℤ◌, ltb_ℤ}

-- `DEPTH_NONE` is -3.
abbrev pub depth_none : ℤ
depth_none = negsuc 2

abbrev pub value_none : ℤ
value_none = pos 32002

abbrev pub generation_bits : ℕ
generation_bits = 5

abbrev pub generation_mask : ℕ
generation_mask = 2 ^ 5 - 1

abbrev pub bound_mask : ℕ
bound_mask = 3 * 2 ^ 5

abbrev pub pv_mask : ℕ
pv_mask = 2 ^ 7

pub data Bound : Type 0 where
  no_bound upper lower exact : Bound

-- `b as u8`.
abbrev pub bound_code : Bound → ℕ
bound_code no_bound = 0
bound_code upper = 1
bound_code lower = 2
bound_code exact = 3

-- `Bound::from_u8`.
unfoldable pub bound_of_code : ℕ → Bound
bound_of_code v =
    let code = bit_and v 3 in
    if code == 0 then no_bound else if code == 1 then upper else if code == 2 then lower else exact

pub record TtData : Type 0 where
  pub move16 : ℕ
  pub value : ℤ
  pub eval : ℤ
  pub depth : ℤ
  pub bound : Bound
  pub is_pv : Bool

-- `TTData::none`.
abbrev pub no_data : TtData
no_data = record {
  move16 = 0;
  value = value_none;
  eval = value_none;
  depth = depth_none;
  bound = no_bound;
  is_pv = false;
}

unfoldable pub relative_age : (gen_bound8 curr_generation : ℕ) → ℕ
relative_age gen_bound8 curr_generation =
    bit_and ((curr_generation + 2 ^ 8 - gen_bound8) % 2 ^ 8) generation_mask

pub record TtEntry : Type 0 where
  pub key : ℕ
  pub depth8 : ℕ
  pub gen_bound8 : ℕ
  pub move16 : ℕ
  pub value16 : ℕ
  pub eval16 : ℕ

-- `TTEntry::default` and `TTEntry::reset`: all zero.
abbrev pub zero_entry : TtEntry
zero_entry = record { key = 0; depth8 = 0; gen_bound8 = 0; move16 = 0; value16 = 0; eval16 = 0 }

-- `v as i16`, as the word that is stored, and back.
abbrev pub to_i16 : ℤ → ℕ
to_i16 (pos n) = n % 2 ^ 16
to_i16 (negsuc n) = 2 ^ 16 - 1 - n % 2 ^ 16

unfoldable pub of_i16 : ℕ → ℤ
of_i16 w = if ltb w (2 ^ 15) then pos w else negsuc (2 ^ 16 - 1 - w)

-- `d as u8`.
abbrev pub to_u8 : ℤ → ℕ
to_u8 (pos n) = n % 2 ^ 8
to_u8 (negsuc n) = 2 ^ 8 - 1 - n % 2 ^ 8

unfoldable pub read : TtEntry → TtData
unfolding of_i16 bound_of_code
read e = record {
  move16 = e.move16;
  value = of_i16 e.value16;
  eval = of_i16 e.eval16;
  depth = depth_none +ℤ pos e.depth8;
  bound = bound_of_code (bit_and e.gen_bound8 bound_mask / 2 ^ 5);
  is_pv = not (bit_and e.gen_bound8 pv_mask == 0);
}

unfoldable pub is_occupied : TtEntry → Bool
is_occupied e = not (e.depth8 == 0)

unfoldable pub replace_priority : TtEntry → (curr_generation : ℕ) → ℤ
unfolding relative_age
replace_priority e curr_generation =
    pos e.depth8 -ℤ pos (8 * relative_age e.gen_bound8 curr_generation)

-- The arguments of `save`.
pub record Save : Type 0 where
  pub key : ℕ
  pub value : ℤ
  pub pv : Bool
  pub bound : Bound
  pub depth : ℤ
  pub move16 : ℕ
  pub eval : ℤ
  pub generation : ℕ

-- `pv as Depth` and `pv as u8`.
abbrev pub bit_of : Bool → ℕ
bit_of true = 1
bit_of false = 0

-- Whether the move is stored.
unfoldable pub keeps_move : TtEntry → Save → Bool
keeps_move e s = not (s.move16 == 0) || not (s.key == e.key)

-- Whether the other fields are.
unfoldable pub replaces : TtEntry → Save → Bool
unfolding relative_age
replaces e s =
    (bound_code s.bound == 3)
    || not (s.key == e.key)
    || ltb_ℤ (pos e.depth8 -ℤ pos 4) (s.depth -ℤ depth_none +ℤ pos (2 * bit_of s.pv))
    || not (relative_age e.gen_bound8 s.generation == 0)

-- The byte of generation, bound and pv.
unfoldable pub pack : Save → ℕ
pack s = bit_or (bit_or s.generation (bound_code s.bound * 2 ^ 5)) (bit_of s.pv * 2 ^ 7)

unfoldable pub save : TtEntry → Save → TtEntry
unfolding keeps_move replaces pack
save e s =
    let moved = if keeps_move e s then record e { move16 = s.move16 } else e in
    if replaces e s
    then (record moved {
      key = s.key;
      depth8 = to_u8 (s.depth -ℤ depth_none);
      gen_bound8 = pack s;
      value16 = to_i16 s.value;
      eval16 = to_i16 s.eval;
    })
    else moved

-- ===== src/State/Position/Repetition/Nearest.antt =====
-- What `is_repetition` finds: the nearest state in its window that decides.
use attic_shogi.Prelude.{
  ℕ, zero, suc, ◌+◌, ◌*◌, ◌%◌, ◌≤◌, ◌<◌, min, ◌≡◌, ◌≢◌, refl, ℕ_discrete, inl, inr, Bool-cases,
  Option-cases, leb, ltb, none, some, arith,
}
use attic_shogi.State.Position.Types.{
  CheckOps, Position, base_state, capture_root, prev_state-capture_root,
}
use attic_shogi.State.Position.Null.{do_null_move, pass}
use attic_shogi.State.Position.Repetition.{
  max_repetition_ply, RepetitionState, nothing, current_plies_from_null, decide_at, walk_back,
  is_repetition,
}

-- The even distances from `i` to `end`.
pub record Window (i end d : ℕ) : Type 0 where
  pub from : i ≤ d
  pub even : d % 2 ≡ 0
  pub to : d ≤ end

next-Window : (i end d : ℕ) → i % 2 ≡ 0 → d ≢ i → Window i end d → Window (i + 2) end d
next-Window i end d even n w = record {
  from = omega (arith, w.from, w.even);
  even = w.even;
  to = w.to;
}

module _ {Info : Type 0} where
  -- No state from `i` to `end` decides, or the nearest one that does gives the result.
  pub data Nearest (pos : Position Info) (i end : ℕ) (r : RepetitionState) : Type 0 where
    undecided :
        r ≡ nothing → ((d : ℕ) → Window i end d → decide_at pos d ≡ none) → Nearest pos i end r
    decided :
        (d : ℕ)
        → Window i end d
        → decide_at pos d ≡ some r
        → ((e : ℕ) → Window i end e → e < d → decide_at pos e ≡ none)
        → Nearest pos i end r

  -- The first distance of a window decides, or the rest of it does.
  later :
      (pos : Position Info) (i end : ℕ) (r : RepetitionState)
      → i % 2 ≡ 0
      → decide_at pos i ≡ none
      → Nearest pos (i + 2) end r
      → Nearest pos i end r
  later pos i end r even here n = step n
    where
      beyond :
          (d : ℕ)
          → Window i end d
          → (Window (i + 2) end d → decide_at pos d ≡ none)
          → decide_at pos d ≡ none
      beyond d w next = elim (ℕ_discrete d i) [
        | yes e ↦ rw e here
        | no other ↦ next (next-Window i end d even other w)
      ]

      step : Nearest pos (i + 2) end r → Nearest pos i end r
      step (undecided e none_further) = undecided e λ d w. beyond d w (none_further d)
      step (decided d w at_d nearer) =
          decided d (record { from = omega (arith, w.from); even = w.even; to = w.to }) at_d
            λ e u below. beyond e u (λ v. nearer e v below)

  walk_back-Nearest :
      (pos : Position Info) (end fuel i : ℕ)
      → i % 2 ≡ 0
      → end < i + 2 * fuel
      → Nearest pos i end (walk_back pos end fuel i)
  unfolding walk_back
  walk_back-Nearest pos end zero i even enough =
      undecided refl λ d w. absurd (omega (arith, w.from, w.to))
  walk_back-Nearest pos end (suc fuel) i even enough = elim (Bool-cases (leb i end)) [
    | inl inside ↦ elim (Option-cases (decide_at pos i)) [
      | inl here ↦
          rw (inside, here)
            (later pos i end _ even here
              (walk_back-Nearest pos end fuel (i + 2) (omega arith) (omega arith)))
      | inr (r, here) ↦
          rw (inside, here)
            (decided i (record { from = omega arith; even = even; to = ground arith }) here
              λ e u below. absurd (omega (arith, u.from)))
    ]
    | inr outside ↦ rw outside (undecided refl λ d w. absurd (ground (arith, w.from, w.to)))
  ]

  -- In every position, `is_repetition` either finds no state that decides at an even distance from 4
  -- up to 16 and to the plies since the last null move, and answers that there is none, or its answer
  -- is that of the nearest such state; its seven rounds are enough.
  pub is_repetition-Nearest :
      (pos : Position Info)
      → Nearest pos 4 (min max_repetition_ply (current_plies_from_null pos)) (is_repetition pos)
  unfolding is_repetition
  is_repetition-Nearest pos =
      let end = min max_repetition_ply (current_plies_from_null pos) in
      elim (Bool-cases (ltb end 4)) [
        | inl short ↦ rw short (undecided refl λ d w. absurd (ground (arith, w.from, w.to)))
        | inr long ↦ rw long (walk_back-Nearest pos end 7 4 refl (omega arith))
      ]

  -- A null move never panics, and right after it nothing repeats, whatever stands in the history.
  pub is_repetition-do_null_move :
      (ops : CheckOps Info) (pos : Position Info)
      → (after : Position Info) × (do_null_move ops pos ≡ some after)
        × (is_repetition after ≡ nothing)
  unfolding do_null_move pass is_repetition current_plies_from_null
  is_repetition-do_null_move ops pos =
      (pass ops (base_state pos) (capture_root pos), rw (prev_state-capture_root pos) refl, refl)

-- ===== src/Scheduling/Availability/Grid.antt =====
-- The loop over the starts of the slots in a window: it ends just where the grid step is not 0.
use native.Mathlib.Nat.{add-div_left, div-eq_of_lt}
use detailing_studio.Prelude.{
  ℕ, zero, suc, ◌+◌, ◌-◌, ◌/◌, ◌≤◌, ◌<◌, ◌≡◌, refl, ap, ◌∙◌, true, false, List, [], ◌∷◌, arith, leb,
  if◌then◌else◌, map, Result, ok, err, Bool-cases, inl, inr,
}
use detailing_studio.Scheduling.Availability.{slots_from}

-- `count` starts, `step` apart.
pub grid : ℕ → ℕ → ℕ → List ℕ
grid start step zero = []
grid start step (suc count) = start ∷ grid (start + step) step count

-- How many slots begin in a window.
pub grid_count : ℕ → ℕ → ℕ → ℕ → ℕ
grid_count duration step start end =
    if leb (start + duration) end then suc ((end - duration - start) / step) else 0

grid_past :
    (duration step start end : ℕ) → end < start + duration → grid_count duration step start end ≡ 0
unfolding grid_count
grid_past duration step start end h = ground arith

grid_count-next :
    (duration step start end : ℕ)
    → 0 < step
    → start + duration ≤ end
    → grid_count duration step start end ≡ suc (grid_count duration step (start + step) end)
unfolding grid_count
grid_count-next duration step start end h fits =
    let now : leb (start + duration) end ≡ true = ground arith in
    elim (Bool-cases (leb (start + step + duration) end)) [
      | inl more ↦
          let left : step + (end - duration - (start + step)) ≡ end - duration - start =
            ground arith in
          let fewer = add-div_left (end - duration - (start + step)) {k = step} h in
          rw (now, more) (rw (← left) (ap suc (fewer ∙ omega arith)))
      | inr last ↦
          let small : (end - duration - start) / step ≡ 0 = div-eq_of_lt (ground arith) in
          rw (now, last, small)
    ]

module _ {ℓ} {A E : Type ℓ} (stuck : E) (make : ℕ → Result E A) (f : ℕ → A) where
  -- With a step above 0, fuel for the length of the window is enough, and the loop makes a slot at
  -- each start on the grid from which one fits in the window.
  pub slots_from-eq-grid :
      (fuel duration step start end : ℕ)
      → ((s : ℕ) → make s ≡ ok (f s))
      → 0 < step
      → end < start + fuel
      → slots_from stuck (suc fuel) duration step start end make
        ≡ ok (map f (grid start step (grid_count duration step start end)))
  unfolding slots_from grid
  slots_from-eq-grid zero duration step start end made h enough =
      let past : leb (start + duration) end ≡ false = ground arith in
      rw (past, grid_past duration step start end (ground arith))
  slots_from-eq-grid (suc fuel) duration step start end made h enough =
      elim (Bool-cases (leb (start + duration) end)) [
        | inl fits ↦
            rw (fits, made start, grid_count-next duration step start end h (ground arith))
              (rw (slots_from-eq-grid fuel duration step (start + step) end made h (omega arith)))
        | inr done ↦ rw (done, grid_past duration step start end (ground arith))
      ]

  -- With a step of 0 the loop over a window in which a slot fits uses up any fuel.
  pub slots_from_diverges :
      (fuel duration start end : ℕ)
      → ((s : ℕ) → make s ≡ ok (f s))
      → start + duration ≤ end
      → slots_from stuck fuel duration 0 start end make ≡ err stuck
  unfolding slots_from
  slots_from_diverges zero duration start end made fits = refl
  slots_from_diverges (suc fuel) duration start end made fits =
      let now : leb (start + duration) end ≡ true = ground arith in
      rw (now, made start)
        (rw (slots_from_diverges fuel duration (start + 0) end made (omega arith)))

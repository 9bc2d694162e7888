-- ===== src/Scheduling/Availability/Total.antt =====
-- With valid schedules and enough fuel the calculation comes to an end and throws nothing.
use detailing_studio.Prelude.{
  ℕ, zero, suc, ◌+◌, ◌-◌, ◌*◌, ◌%◌, ◌≤◌, ◌<◌, ◌≡◌, refl, inl, inr, true, List, [], ◌∷◌, ◌++◌, map,
  arith, ltb, ◌==◌, sort, IsSorted, All, All-map, All-filter, Result, ok, Bool-cases, Option-cases,
  String,
}
use detailing_studio.Scheduling.Hours.{TimeRange}
use detailing_studio.Scheduling.Intervals.{MinuteInterval, inside, subtract_intervals}
use detailing_studio.Scheduling.MasterSchedule.{MasterSchedule}
use detailing_studio.Scheduling.Appointment.{ms_per_minute, time_slot}
use detailing_studio.Scheduling.Availability.{
  AvailabilityError, AvailableSlot, AvailabilityQuery, ms_per_day, appointments_to_intervals,
  to_interval, slot_at, window_slots, out_of_fuel, common_ranges, day_slots, days_slots,
  masters_slots, calculate, unless_closed, selected_masters, slot_before, step_minutes,
  buffer_minutes, blocking_of, iso_day_of_week, day_starts, enumerate_day_starts,
}
use detailing_studio.Scheduling.Availability.Common.{
  WithinDay, covers-intersect_range_lists, intersect_range_lists-WithinDay,
}
use detailing_studio.Scheduling.Availability.Grid.{grid, grid_count, slots_from-eq-grid}
use detailing_studio.Scheduling.Availability.Windows.{windows_lem}
use detailing_studio.Scheduling.Availability.Apart.{Lasting, Free, free_minute}
use detailing_studio.Scheduling.Availability.Free.{calculate-Free}
use detailing_studio.Scheduling.Availability.ValidHours.{
  IsValidPattern, IsValidSchedule, hours_ok, master_ok,
}

days_ok :
    (fuel day end : ℕ)
    → end ≤ day + fuel * ms_per_day
    → (days : List ℕ) × (day_starts (suc fuel) day end ≡ ok days)
unfolding day_starts
days_ok zero day end h = ([], ground arith)
days_ok (suc fuel) day end h =
    let (days, e) = days_ok fuel (day + ms_per_day) end (omega arith) in
    elim (Bool-cases (ltb day end)) [
      | inl more ↦ (day ∷ days, rw more (rw e))
      | inr past ↦ ([], rw past)
    ]

module _ (fuel duration step : ℕ) (make : ℕ → Result AvailabilityError AvailableSlot)
    (f : ℕ → AvailableSlot) (made : (s : ℕ) → make s ≡ ok (f s)) (pos : 0 < step) where
  window_slots_ok :
      (ws : List MinuteInterval)
      → All (λ w. w.end_min < w.start_min + fuel) ws
      → (xs : List AvailableSlot) × (window_slots (suc fuel) duration step make ws ≡ ok xs)
  unfolding window_slots
  window_slots_ok [] h = ([], refl)
  window_slots_ok (w ∷ ws) h =
      let (xs, rest) = window_slots_ok ws h.1 in
      let here =
        slots_from-eq-grid out_of_fuel make f fuel duration step w.start_min w.end_min made pos
          h.0 in
      elim (Bool-cases (ltb (w.end_min - w.start_min) duration)) [
        | inl short ↦ (xs, rw short rest)
        | inr long ↦ (
          map f (grid w.start_min step (grid_count duration step w.start_min w.end_min)) ++ xs,
          rw (long, here) (rw rest),
        )
      ]

window_short :
    (w : MinuteInterval) (fuel : ℕ)
    → 1440 < fuel
    → ((m : ℕ) → inside m w ≡ true → m < 1440)
    → w.end_min < w.start_min + fuel
window_short w fuel enough h = elim (Bool-cases (ltb w.start_min w.end_min)) [
  | inl some_minute ↦ let last = h (w.end_min - 1) (ground arith) in omega (arith, last)
  | inr empty ↦ ground arith
]

module _ (format_date : ℕ → String) (fuel : ℕ) (q : AvailabilityQuery) where
  common_ranges_ok :
      (master : MasterSchedule) (day : ℕ)
      → IsValidSchedule q.branch_schedule
      → IsValidPattern master.weekly_pattern
      → (rs : List TimeRange) × (common_ranges format_date (suc fuel) q master day ≡ ok rs)
        × WithinDay rs
  unfolding common_ranges
  common_ranges_ok master day v w =
      let (branch, hours, within) =
        hours_ok (format_date day) (iso_day_of_week day) q.branch_schedule v in
      let (own, ranges) = master_ok (iso_day_of_week day) day (day + ms_per_day) master w in
      let (rs, e, d) = shared branch own within in (rs, rw hours (rw ranges e), d)
    where
      shared :
          (branch own : List TimeRange)
          → WithinDay branch
          → (rs : List TimeRange) × (unless_closed branch (ok own) ≡ ok rs) × WithinDay rs
      shared [] own d = ([], refl, tt)
      shared (b ∷ bs) own d =
          let (rs, e, exact) = covers-intersect_range_lists 0 (b ∷ bs) own d in
          (rs, e, intersect_range_lists-WithinDay (b ∷ bs) own e)

  day_slots_ok :
      (master : MasterSchedule) (day : ℕ)
      → 1440 < fuel
      → 0 < q.services_duration
      → 0 < step_minutes format_date (suc fuel) q
      → IsValidSchedule q.branch_schedule
      → IsValidPattern master.weekly_pattern
      → (xs : List AvailableSlot) × (day_slots format_date (suc fuel) q master day ≡ ok xs)
  unfolding day_slots time_slot
  day_slots_ok master day enough pos step v w =
      let (ranges, e, within) = common_ranges_ok master day v w in
      let d = q.services_duration in
      let buffer = buffer_minutes format_date (suc fuel) q in
      let appts = blocking_of format_date (suc fuel) q master in
      let ws =
        subtract_intervals (map to_interval ranges) (appointments_to_intervals day buffer appts) in
      let (xs, made) =
        window_slots_ok fuel d (step_minutes format_date (suc fuel) q)
          (slot_at d q.timezone day master)
          (λ s. record {
            master_id = master.master_id;
            branch_id = master.branch_id;
            slot = record {
              start = day + s * ms_per_minute;
              end = day + (s + d) * ms_per_minute;
              timezone = q.timezone;
            };
          })
          (λ s. ground arith) step ws
          (All-map _ _ (λ x minutes. window_short x fuel enough minutes) ws
            (windows_lem (λ m. m < 1440) ws
              (λ m at. (free_minute m day buffer ranges appts within at).0))) in
      (xs, rw e made)

  days_slots_ok :
      (master : MasterSchedule) (days : List ℕ)
      → 1440 < fuel
      → 0 < q.services_duration
      → 0 < step_minutes format_date (suc fuel) q
      → IsValidSchedule q.branch_schedule
      → IsValidPattern master.weekly_pattern
      → (xs : List AvailableSlot) × (days_slots format_date (suc fuel) q master days ≡ ok xs)
  unfolding days_slots
  days_slots_ok master [] enough pos step v w = ([], refl)
  days_slots_ok master (day ∷ days) enough pos step v w =
      let (xs, here) = day_slots_ok master day enough pos step v w in
      let (ys, rest) = days_slots_ok master days enough pos step v w in
      (xs ++ ys, rw here (rw rest))

  masters_slots_ok :
      (days : List ℕ) (masters : List MasterSchedule)
      → 1440 < fuel
      → 0 < q.services_duration
      → 0 < step_minutes format_date (suc fuel) q
      → IsValidSchedule q.branch_schedule
      → All (λ m. IsValidPattern m.weekly_pattern) masters
      → (xs : List AvailableSlot) × (masters_slots format_date (suc fuel) q days masters ≡ ok xs)
  unfolding masters_slots
  masters_slots_ok days [] enough pos step v w = ([], refl)
  masters_slots_ok days (m ∷ ms) enough pos step v w =
      let (xs, here) = days_slots_ok m days enough pos step v w.0 in
      let (ys, rest) = masters_slots_ok days ms enough pos step v w.1 in
      (xs ++ ys, rw here (rw rest))

  selected-All :
      All (λ m. IsValidPattern m.weekly_pattern) q.master_schedules
      → All (λ m. IsValidPattern m.weekly_pattern) (selected_masters format_date (suc fuel) q)
  selected-All w = elim (Option-cases q.master_id) [
    | inl all ↦ rw all w
    | inr (id, one) ↦ rw one (All-filter _ (λ m. m.master_id == id) _ w)
  ]

  calculate_ok :
      1440 < fuel
      → q.search_to ≤ q.search_from - q.search_from % ms_per_day + fuel * ms_per_day
      → 0 < q.services_duration
      → 0 < step_minutes format_date (suc fuel) q
      → IsValidSchedule q.branch_schedule
      → All (λ m. IsValidPattern m.weekly_pattern) q.master_schedules
      → (slots : List AvailableSlot) × (calculate format_date (suc fuel) q ≡ ok slots)
  unfolding calculate enumerate_day_starts
  calculate_ok enough span pos step v w =
      let (days, e) = days_ok fuel (q.search_from - q.search_from % ms_per_day) q.search_to span in
      let (xs, made) =
        masters_slots_ok days (selected_masters format_date (suc fuel) q) enough pos step v
          (selected-All w) in
      (sort (slot_before format_date (suc fuel) q) xs, rw e (rw made))

  -- Where the services last above 0 minutes, the grid step is above 0, the hours of the schedules
  -- end before midnight and the appointments last, `calculate` ends without an error on fuel for the
  -- minutes of a day and for the days of the search. Each slot it offers lasts as long as the
  -- services and overlaps no unfinished appointment of its master, and the slots are sorted by their
  -- starts.
  pub calculate_offers-Free :
      1440 < fuel
      → q.search_to ≤ q.search_from - q.search_from % ms_per_day + fuel * ms_per_day
      → 0 < q.services_duration
      → 0 < step_minutes format_date (suc fuel) q
      → IsValidSchedule q.branch_schedule
      → All (λ m. IsValidPattern m.weekly_pattern) q.master_schedules
      → Lasting q.existing_appointments
      → (slots : List AvailableSlot) × (calculate format_date (suc fuel) q ≡ ok slots)
        × All (Free q) slots
        × IsSorted (slot_before format_date (suc fuel) q) slots
  calculate_offers-Free enough span pos step v w real =
      let (slots, e) = calculate_ok enough span pos step v w in
      let free = calculate-Free format_date (suc fuel) q pos real e in (slots, e, free.0, free.1)

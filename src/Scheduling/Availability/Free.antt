-- ===== src/Scheduling/Availability/Free.antt =====
-- The slots that `calculate` offers are free.
use detailing_studio.Prelude.{
  ℕ, ◌+◌, ◌<◌, ◌≡◌, false, List, [], ◌∷◌, ◌++◌, map, arith, sort, IsSorted, sort-IsSorted, All,
  All-map, All-append, All-filter, All-sort, ok, bind_ok, String,
}
use detailing_studio.Scheduling.Hours.{TimeRange}
use detailing_studio.Scheduling.Intervals.{covered, subtract_intervals}
use detailing_studio.Scheduling.BranchSchedule.{working_hours_at}
use detailing_studio.Scheduling.MasterSchedule.{MasterSchedule, working_ranges_on_day}
use detailing_studio.Scheduling.Availability.{
  AvailableSlot, AvailabilityQuery, ms_per_day, appointments_to_intervals, to_interval, slot_at,
  common_ranges, day_slots, days_slots, masters_slots, calculate, lift_hours, unless_closed,
  selected_masters, slot_before, step_minutes, buffer_minutes, blocking_of, iso_day_of_week,
  enumerate_day_starts,
}
use detailing_studio.Scheduling.Availability.Common.{WithinDay, intersect_range_lists-WithinDay}
use detailing_studio.Scheduling.Availability.Windows.{windows_lem, window_slots-All}
use detailing_studio.Scheduling.Availability.Apart.{
  Lasting, Free, slot_apart, free_minute, no_double, slot_at_lem, lift_hours_ok,
}

module _ (format_date : ℕ → String) (fuel : ℕ) (q : AvailabilityQuery) where
  -- The ranges of a day end within it.
  common_ranges-WithinDay :
      (master : MasterSchedule) (day : ℕ) {rs : List TimeRange}
      → common_ranges format_date fuel q master day ≡ ok rs
      → WithinDay rs
  unfolding common_ranges
  common_ranges-WithinDay master day {rs} h =
      let (branch, hours, h') =
        bind_ok (working_hours_at (format_date day) (iso_day_of_week day) q.branch_schedule) _ h in
      shared branch h'
    where
      shared :
          (branch : List TimeRange)
          → unless_closed branch
              (working_ranges_on_day (iso_day_of_week day) day (day + ms_per_day) master)
            ≡ ok rs
          → WithinDay rs
      shared [] e = let same : rs ≡ [] = cc in rw same tt
      shared (b ∷ bs) e =
          let (own, ranges, e') =
            bind_ok (working_ranges_on_day (iso_day_of_week day) day (day + ms_per_day) master) _
              e in
          intersect_range_lists-WithinDay (b ∷ bs) own e'

  -- The slots of one day.
  day_slots-Free :
      (master : MasterSchedule) (day : ℕ) {xs : List AvailableSlot}
      → 0 < q.services_duration
      → Lasting q.existing_appointments
      → day_slots format_date fuel q master day ≡ ok xs
      → All (Free q) xs
  unfolding day_slots
  day_slots-Free master day pos real h =
      let (ranges, lifted, h') =
        bind_ok (lift_hours (common_ranges format_date fuel q master day)) _ h in
      let within = common_ranges-WithinDay master day (lift_hours_ok _ lifted) in
      let d = q.services_duration in
      let buffer = buffer_minutes format_date fuel q in
      let appts = blocking_of format_date fuel q master in
      let real' : Lasting appts = All-filter _ _ _ (All-filter _ _ _ real) in
      let ws =
        subtract_intervals (map to_interval ranges) (appointments_to_intervals day buffer appts) in
      window_slots-All (Free q) fuel d (step_minutes format_date fuel q)
        (slot_at d q.timezone day master) ws
        (All-map _ _
          (λ w minutes s x fits made.
            let (own, from, to) = slot_at_lem d q.timezone day master s x made in
            let apart =
              slot_apart day buffer s d appts pos real'
                (λ m low high. minutes m (ground (arith, fits.0, fits.1))) in
            (
              rw (from, to) (omega arith),
              no_double q.existing_appointments x (rw (own, from, to) apart),
            ))
          ws
          (windows_lem
            (λ m. (m < 1440) × (covered (appointments_to_intervals day buffer appts) m ≡ false)) ws
            (λ m at. free_minute m day buffer ranges appts within at)))
        h'

  days_slots-Free :
      (master : MasterSchedule) (days : List ℕ) {xs : List AvailableSlot}
      → 0 < q.services_duration
      → Lasting q.existing_appointments
      → days_slots format_date fuel q master days ≡ ok xs
      → All (Free q) xs
  unfolding days_slots
  days_slots-Free master [] {xs} pos real h = let same : xs ≡ [] = cc in rw same tt
  days_slots-Free master (day ∷ days) {xs} pos real h =
      let (here, e, h') = bind_ok (day_slots format_date fuel q master day) _ h in
      let (more, e', h'') = bind_ok (days_slots format_date fuel q master days) _ h' in
      let same : xs ≡ here ++ more = cc in
      rw same (
        All-append (Free q) here more (day_slots-Free master day pos real e)
          (days_slots-Free master days pos real e'))

  masters_slots-Free :
      (days : List ℕ) (masters : List MasterSchedule) {xs : List AvailableSlot}
      → 0 < q.services_duration
      → Lasting q.existing_appointments
      → masters_slots format_date fuel q days masters ≡ ok xs
      → All (Free q) xs
  unfolding masters_slots
  masters_slots-Free days [] {xs} pos real h = let same : xs ≡ [] = cc in rw same tt
  masters_slots-Free days (m ∷ ms) {xs} pos real h =
      let (here, e, h') = bind_ok (days_slots format_date fuel q m days) _ h in
      let (more, e', h'') = bind_ok (masters_slots format_date fuel q days ms) _ h' in
      let same : xs ≡ here ++ more = cc in
      rw same (
        All-append (Free q) here more (days_slots-Free m days pos real e)
          (masters_slots-Free days ms pos real e'))

  -- Where the services last above 0 minutes and the appointments last, every slot that `calculate`
  -- offers lasts as long as the services and overlaps no unfinished appointment of its master, and
  -- the slots are sorted by their starts.
  pub calculate-Free :
      {slots : List AvailableSlot}
      → 0 < q.services_duration
      → Lasting q.existing_appointments
      → calculate format_date fuel q ≡ ok slots
      → All (Free q) slots × IsSorted (slot_before format_date fuel q) slots
  unfolding calculate
  calculate-Free {slots} pos real h =
      let (days, e, h') = bind_ok (enumerate_day_starts fuel q.search_from q.search_to) _ h in
      let masters = selected_masters format_date fuel q in
      let (xs, e', h'') = bind_ok (masters_slots format_date fuel q days masters) _ h' in
      let order = slot_before format_date fuel q in
      let same : slots ≡ sort order xs = cc in
      rw same (
        All-sort order (Free q) xs (masters_slots-Free days masters pos real e'),
        sort-IsSorted order (λ a b c f g. ground arith) (λ a b f. ground arith) xs,
      )

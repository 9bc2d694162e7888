-- ===== src/Scheduling/Availability.antt =====
-- libs/backend/scheduling/domain/src/services/availability-calculator.ts. A time is its milliseconds,
-- `format_date` stands for the date that `Date` prints, and the loops run on fuel.
pub mod Grid
pub mod Overlap
pub mod Common
pub mod Windows
pub mod Apart
pub mod ValidHours
pub mod Total
mod Tests
pub mod Free
use detailing_studio.Prelude.{
  ℕ, zero, suc, ◌+◌, ◌-◌, ◌*◌, ◌/◌, ◌%◌, Bool, true, false, ◌&&◌, Option, none, some, List, [], ◌∷◌,
  ◌++◌, map, String, ltb, leb, ◌==◌, if◌then◌else◌, filter, sort, min, max, Result, ok, err, ◌>>=◌,
}
use detailing_studio.Scheduling.Hours.{HoursError, TimeRange, to_minutes, range_of_minutes}
use detailing_studio.Scheduling.Intervals.{MinuteInterval, subtract_intervals}
use detailing_studio.Scheduling.BranchSchedule.{BranchSchedule, working_hours_at}
use detailing_studio.Scheduling.MasterSchedule.{MasterSchedule, working_ranges_on_day}
use detailing_studio.Scheduling.Appointment.{
  Appointment, AppointmentStatus, pending_confirmation, confirmed, in_progress, AppointmentError,
  TimeSlot, time_slot, ms_per_minute,
}

pub data AvailabilityError : Type 0 where
  hours_error : HoursError → AvailabilityError
  slot_error : AppointmentError → AvailabilityError
  out_of_fuel : AvailabilityError

abbrev pub lift_hours : {A : Type 0} → Result HoursError A → Result AvailabilityError A
lift_hours (ok a) = ok a
lift_hours (err e) = err (hours_error e)

abbrev pub lift_slot : {A : Type 0} → Result AppointmentError A → Result AvailabilityError A
lift_slot (ok a) = ok a
lift_slot (err e) = err (slot_error e)

pub record AvailableSlot : Type 0 where
  pub master_id : ℕ
  pub branch_id : ℕ
  pub slot : TimeSlot

pub record AvailabilityQuery : Type 0 where
  pub branch_schedule : BranchSchedule
  pub master_schedules : List MasterSchedule
  pub existing_appointments : List Appointment
  pub services_duration : ℕ
  pub search_from : ℕ
  pub search_to : ℕ
  pub grid_step : Option ℕ
  pub buffer_between : Option ℕ
  pub master_id : Option ℕ
  pub timezone : String

-- `BLOCKING_STATUSES.has(status)`.
abbrev pub is_blocking : AppointmentStatus → Bool
is_blocking pending_confirmation = true
is_blocking confirmed = true
is_blocking in_progress = true
is_blocking _ = false

abbrev pub ms_per_day : ℕ
ms_per_day = 86400000

-- The loop of `enumerateDayStartMs`.
unfoldable pub day_starts : ℕ → ℕ → ℕ → Result AvailabilityError (List ℕ)
day_starts zero day end = err out_of_fuel
day_starts (suc fuel) day end =
    let rest = day_starts fuel (day + ms_per_day) end in
    if ltb day end then (do days ← rest; ok (day ∷ days)) else ok []

unfoldable pub enumerate_day_starts : ℕ → ℕ → ℕ → Result AvailabilityError (List ℕ)
unfolding day_starts
enumerate_day_starts fuel from to = day_starts fuel (from - from % ms_per_day) to

unfoldable pub iso_day_of_week : ℕ → ℕ
iso_day_of_week day_start =
    let js_day = (day_start / ms_per_day + 4) % 7 in if js_day == 0 then 7 else js_day

-- The inner loop of `intersectRangeLists`.
unfoldable pub intersect_range : TimeRange → List TimeRange → Result HoursError (List TimeRange)
intersect_range a [] = ok []
intersect_range a (b ∷ bs) =
    let start = max (to_minutes a.start) (to_minutes b.start) in
    let end = min (to_minutes a.end) (to_minutes b.end) in
    let rest = intersect_range a bs in
    if ltb start end then (do r ← range_of_minutes start end; rs ← rest; ok (r ∷ rs)) else rest

unfoldable pub intersect_range_lists :
    List TimeRange → List TimeRange → Result HoursError (List TimeRange)
unfolding intersect_range
intersect_range_lists [] bs = ok []
intersect_range_lists (a ∷ as') bs =
    let rest = intersect_range_lists as' bs in
    (do rs ← intersect_range a bs; rs' ← rest; ok (rs ++ rs'))

abbrev pub in_day : ℕ → Appointment → Bool
in_day day_start a = ltb a.slot.start (day_start + ms_per_day) && ltb day_start a.slot.end

-- `Math.ceil(n / MS_PER_MIN)`.
abbrev pub ceil_minutes : ℕ → ℕ
ceil_minutes n = (n + (ms_per_minute - 1)) / ms_per_minute

abbrev pub appointment_interval : ℕ → ℕ → Appointment → MinuteInterval
appointment_interval day_start buffer a = record {
  start_min = (max (a.slot.start - buffer * ms_per_minute) day_start - day_start) / ms_per_minute;
  end_min =
      ceil_minutes (min (a.slot.end + buffer * ms_per_minute) (day_start + ms_per_day) - day_start);
}

abbrev pub starts_before : MinuteInterval → MinuteInterval → Bool
starts_before a b = leb a.start_min b.start_min

unfoldable pub appointments_to_intervals : ℕ → ℕ → List Appointment → List MinuteInterval
appointments_to_intervals day_start buffer appts =
    sort starts_before
      (map (appointment_interval day_start buffer) (filter (in_day day_start) appts))

-- `for (startMin = start; startMin + duration <= end; startMin += step) result.push(make(startMin))`.
unfoldable pub slots_from {ℓ} :
    {A : Type ℓ} {E : Type ℓ} → E → ℕ → ℕ → ℕ → ℕ → ℕ → (ℕ → Result E A) → Result E (List A)
slots_from stuck zero duration step start end make = err stuck
slots_from stuck (suc fuel) duration step start end make =
    let rest = slots_from stuck fuel duration step (start + step) end make in
    if leb (start + duration) end
    then (do slot ← make start; slots ← rest; ok (slot ∷ slots))
    else ok []

-- The slot that begins at a minute of the day.
abbrev pub slot_at : ℕ → String → ℕ → MasterSchedule → ℕ → Result AvailabilityError AvailableSlot
slot_at duration timezone day_start master start = do
  slot ← lift_slot (
      time_slot (day_start + start * ms_per_minute) (day_start + (start + duration) * ms_per_minute)
        timezone)
  ok (record { master_id = master.master_id; branch_id = master.branch_id; slot = slot })

-- The slots of the free windows of a day.
unfoldable pub window_slots :
    ℕ
    → ℕ
    → ℕ
    → (ℕ → Result AvailabilityError AvailableSlot)
    → List MinuteInterval
    → Result AvailabilityError (List AvailableSlot)
window_slots fuel duration step make [] = ok []
window_slots fuel duration step make (w ∷ ws) =
    let rest = window_slots fuel duration step make ws in
    if ltb (w.end_min - w.start_min) duration then rest else (do
      slots ← slots_from out_of_fuel fuel duration step w.start_min w.end_min make
      more ← rest
      ok (slots ++ more))

abbrev pub to_interval : TimeRange → MinuteInterval
to_interval r = record { start_min = to_minutes r.start; end_min = to_minutes r.end }

-- A day on which the branch is closed goes to the next one; a `continue` when the master has no
-- range leaves nothing to intersect.
abbrev pub unless_closed :
    List TimeRange → Result HoursError (List TimeRange) → Result HoursError (List TimeRange)
unless_closed [] own = ok []
unless_closed (b ∷ bs) own = own >>= λ ranges. intersect_range_lists (b ∷ bs) ranges

module _ (format_date : ℕ → String) (fuel : ℕ) (q : AvailabilityQuery) where
  abbrev pub step_minutes : ℕ
  step_minutes = elim q.grid_step [ none ↦ 15 | some step ↦ step ]

  abbrev pub buffer_minutes : ℕ
  buffer_minutes = elim q.buffer_between [ none ↦ 0 | some buffer ↦ buffer ]

  abbrev pub blocking_of : MasterSchedule → List Appointment
  blocking_of master =
      filter (λ a. a.master_id == master.master_id)
        (filter (λ a. is_blocking a.status) q.existing_appointments)

  -- The ranges of a day that both the branch and the master work, in the body of the inner loop.
  unfoldable pub common_ranges : MasterSchedule → ℕ → Result HoursError (List TimeRange)
  common_ranges master day = do
    branch ← working_hours_at (format_date day) (iso_day_of_week day) q.branch_schedule
    unless_closed branch (working_ranges_on_day (iso_day_of_week day) day (day + ms_per_day) master)

  unfoldable pub day_slots : MasterSchedule → ℕ → Result AvailabilityError (List AvailableSlot)
  unfolding common_ranges
  day_slots master day = do
    ranges ← lift_hours (common_ranges master day)
    let holes = appointments_to_intervals day buffer_minutes (blocking_of master)
    window_slots fuel q.services_duration step_minutes
        (slot_at q.services_duration q.timezone day master)
        (subtract_intervals (map to_interval ranges) holes)

  unfoldable pub days_slots :
      MasterSchedule → List ℕ → Result AvailabilityError (List AvailableSlot)
  days_slots master [] = ok []
  days_slots master (day ∷ days) =
      let rest = days_slots master days in
      (do slots ← day_slots master day; more ← rest; ok (slots ++ more))

  unfoldable pub masters_slots :
      List ℕ → List MasterSchedule → Result AvailabilityError (List AvailableSlot)
  masters_slots days [] = ok []
  masters_slots days (master ∷ masters) =
      let rest = masters_slots days masters in
      (do slots ← days_slots master days; more ← rest; ok (slots ++ more))

  abbrev pub selected_masters : List MasterSchedule
  selected_masters = elim q.master_id [
    | none ↦ q.master_schedules
    | some id ↦ filter (λ m. m.master_id == id) q.master_schedules
  ]

  abbrev pub slot_before : AvailableSlot → AvailableSlot → Bool
  slot_before a b = leb a.slot.start b.slot.start

  unfoldable pub calculate : Result AvailabilityError (List AvailableSlot)
  calculate = do
    days ← enumerate_day_starts fuel q.search_from q.search_to
    slots ← masters_slots days selected_masters
    ok (sort slot_before slots)

-- ===== src/Scheduling/Availability/ValidHours.antt =====
-- Schedules whose hours end before midnight, and that their queries do not throw.
use detailing_studio.Prelude.{
  ℕ, ◌<◌, ◌≡◌, refl, inl, inr, ◌&&◌, List, [], ◌∷◌, ◌++◌, arith, ltb, filter, All, ok, ◌>>=◌,
  Bool-cases, Option-cases, String, Option, none, some,
}
use detailing_studio.Scheduling.Hours.{TimeRange, WorkingDay, to_minutes, to_time_ranges}
use detailing_studio.Scheduling.BranchSchedule.{
  BranchSchedule, ScheduleException, WeeklyPattern, find_exception, working_hours_at,
  exception_ranges,
}
use detailing_studio.Scheduling.MasterSchedule.{
  MasterSchedule, Unavailability, working_ranges_on_day, subtract_from_all, unless_free,
  weekly_ranges,
}
use detailing_studio.Scheduling.MasterSchedule.Ranges.{covers-subtract_unavailabilities}
use detailing_studio.Scheduling.Availability.Common.{WithinDay}

-- A day that is closed, or one whose ranges end before midnight.
abbrev pub IsValidDay : Option WorkingDay → Type 0
IsValidDay none = Unit
IsValidDay (some d) = (rs : List TimeRange) × (to_time_ranges d ≡ ok rs) × WithinDay rs

abbrev pub IsValidPattern : WeeklyPattern → Type 0
IsValidPattern p = (day : ℕ) → IsValidDay (p day)

abbrev pub IsValidException : ScheduleException → Type 0
IsValidException e = elim e.custom_range [ none ↦ Unit | some r ↦ to_minutes r.end < 1440 ]

-- Schedules whose hours end before midnight.
abbrev pub IsValidSchedule : BranchSchedule → Type 0
IsValidSchedule s = IsValidPattern s.weekly_pattern × All IsValidException s.exceptions

pub hours_ok :
    (date : String) (day : ℕ) (s : BranchSchedule)
    → IsValidSchedule s
    → (rs : List TimeRange) × (working_hours_at date day s ≡ ok rs) × WithinDay rs
unfolding working_hours_at find_exception
hours_ok date day s v =
    decide (find_exception date s.exceptions) (s.weekly_pattern day) (v.0 day)
      (found s.exceptions v.1)
  where
    Found : Option ScheduleException → Type 0
    Found none = Unit
    Found (some e) = IsValidException e

    found : (es : List ScheduleException) → All IsValidException es → Found (find_exception date es)
    found [] h = tt
    found (e ∷ es) h = ground (arith, found es h.1)

    usual_day :
        (d : Option WorkingDay)
        → IsValidDay d
        → (rs : List TimeRange) × (exception_ranges none d ≡ ok rs) × WithinDay rs
    usual_day none v = ([], refl, tt)
    usual_day (some d) v = v

    decide :
        (e : Option ScheduleException) (d : Option WorkingDay)
        → IsValidDay d
        → Found e
        → (rs : List TimeRange) × (exception_ranges e d ≡ ok rs) × WithinDay rs
    decide none d v f = usual_day d v
    decide (some e) d v f = elim (Bool-cases e.is_closed) [
      | inl closed ↦ ([], rw closed, tt)
      | inr open' ↦ elim (Option-cases e.custom_range) [
        | inl usual ↦ let (rs, x, w) = usual_day d v in (rs, rw (open', usual) x, w)
        | inr (r, special) ↦ (r ∷ [], rw (open', special), (rw special at f, tt))
      ]
    ]

subtract_ok :
    (day_start : ℕ) (us : List Unavailability) (rs : List TimeRange)
    → WithinDay rs
    → (ys : List TimeRange) × (subtract_from_all day_start us rs ≡ ok ys)
unfolding subtract_from_all
subtract_ok day_start us [] d = ([], refl)
subtract_ok day_start us (r ∷ rs) d =
    let (xs, made, exact) = covers-subtract_unavailabilities 0 day_start us r d.0 in
    let (ys, rest) = subtract_ok day_start us rs d.1 in (xs ++ ys, rw made (rw rest))

pub master_ok :
    (day day_start day_end : ℕ) (s : MasterSchedule)
    → IsValidPattern s.weekly_pattern
    → (rs : List TimeRange) × (working_ranges_on_day day day_start day_end s ≡ ok rs)
unfolding working_ranges_on_day
master_ok day day_start day_end s v = from_pattern (s.weekly_pattern day) (v day)
  where
    us : List Unavailability
    us = filter (λ u. ltb u.from_at day_end && ltb day_start u.to_at) s.unavailabilities

    left :
        (us : List Unavailability) (rs : List TimeRange)
        → WithinDay rs
        → (ys : List TimeRange) × (unless_free day_start us rs ≡ ok ys)
    left [] rs d = (rs, refl)
    left (u ∷ us) rs d = subtract_ok day_start (u ∷ us) rs d

    from_pattern :
        (d : Option WorkingDay)
        → IsValidDay d
        → (rs : List TimeRange) × ((weekly_ranges d >>= λ base. unless_free day_start us base)
            ≡ ok rs)
    from_pattern none v = left us [] tt
    from_pattern (some d) (rs, e, w) = let (ys, e') = left us rs w in (ys, rw e e')

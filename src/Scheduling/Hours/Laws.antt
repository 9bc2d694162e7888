-- ===== src/Scheduling/Hours/Laws.antt =====
-- What the ranges of a working day cover.
use detailing_studio.Prelude.{
  ℕ, ◌/◌, ◌%◌, ◌<◌, ◌≡◌, Bool, false, not, ◌&&◌, Option, none, some, List, [], ◌∷◌, arith, ltb, leb,
  ok,
}
use detailing_studio.Scheduling.Hours.{
  TimeOfDay, TimeRange, to_minutes, covers, range_of_minutes, WorkingDay, working_day,
  to_time_ranges,
}

-- A minute of the day makes a time, and the time that minute.
pub range_of_minutes_lem :
    (from to : ℕ)
    → from < to
    → to < 1440
    → (r : TimeRange) × (range_of_minutes from to ≡ ok r)
      × (to_minutes r.start ≡ from)
      × (to_minutes r.end ≡ to)
unfolding range_of_minutes
range_of_minutes_lem from to h day = (
  record {
    start = record { hour = from / 60; minute = from % 60 };
    end = record { hour = to / 60; minute = to % 60 };
  },
  ground arith,
  omega arith,
  omega arith,
)

-- The minute is in the break.
abbrev pub in_break : Option TimeOfDay → Option TimeOfDay → ℕ → Bool
in_break (some b) (some e) m = leb (to_minutes b) m && ltb m (to_minutes e)
in_break (some b) none m = false
in_break none e m = false

-- A working day that `from` accepts has ranges, and they cover just the minutes from opening to
-- closing that are not in the break.
pub working_day-covers :
    (open_at close_at : TimeOfDay) (b e : Option TimeOfDay) (d : WorkingDay) (m : ℕ)
    → working_day open_at close_at b e ≡ ok d
    → (rs : List TimeRange) × (to_time_ranges d ≡ ok rs)
      × (covers rs m
          ≡ (leb (to_minutes open_at) m && (ltb m (to_minutes close_at) && not (in_break b e m))))
unfolding working_day to_time_ranges
working_day-covers open_at close_at none none d m h =
    (record { start = open_at; end = close_at } ∷ [], ground arith, ground arith)
working_day-covers open_at close_at none (some e) d m h = absurd (ground arith)
working_day-covers open_at close_at (some b) none d m h = absurd (ground arith)
working_day-covers open_at close_at (some b) (some e) d m h = (
  record { start = open_at; end = b } ∷ record { start = e; end = close_at } ∷ [],
  ground arith,
  ground arith,
)

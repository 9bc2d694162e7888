-- ===== src/Scheduling/Availability/Overlap.antt =====
-- Minutes and milliseconds: what the holes of a day keep free, and what both lists of hours cover.
use detailing_studio.Prelude.{
  ℕ, ◌+◌, ◌*◌, ◌≤◌, ◌<◌, ◌≡◌, refl, ap, sym, ◌∙◌, ◌⊎◌, inl, inr, true, false, List, [], ◌∷◌, map,
  arith, if◌then◌else◌, filter, sort, insert, IsSorted, sort-IsSorted, All, All-map, max,
  Bool-cases,
}
use detailing_studio.Scheduling.Intervals.{MinuteInterval, inside, covered}
use detailing_studio.Scheduling.Intervals.Laws.{StartsAfter}
use detailing_studio.Scheduling.Appointment.{Appointment, ms_per_minute}
use detailing_studio.Scheduling.Availability.{
  in_day, appointment_interval, starts_before, appointments_to_intervals,
}

-- A slot of a day that has no minute in common with the interval of an appointment keeps the buffer
-- from it.
pub keeps_apart :
    (day buffer s d : ℕ) (a : Appointment)
    → 0 < d
    → s + d ≤ 1440
    → a.slot.start < a.slot.end
    → in_day day a ≡ true
    → (max s (appointment_interval day buffer a).start_min < s + d
        → inside
            (max s (appointment_interval day buffer a).start_min)
            (appointment_interval day buffer a)
          ≡ false)
    → (day + (s + d) * ms_per_minute + buffer * ms_per_minute ≤ a.slot.start)
      ⊎ (a.slot.end + buffer * ms_per_minute ≤ day + s * ms_per_minute)
keeps_apart day buffer s d a pos_d fits real here free = ground arith

covered-insert :
    (m : ℕ) (i : MinuteInterval) (is : List MinuteInterval)
    → covered (insert starts_before i is) m ≡ (if inside m i then true else covered is m)
covered-insert m i [] = refl
covered-insert m i (x ∷ is) = ground (arith, covered-insert m i is)

covered-sort : (m : ℕ) (is : List MinuteInterval) → covered (sort starts_before is) m ≡ covered is m
covered-sort m [] = refl
covered-sort m (i ∷ is) =
    covered-insert m i (sort starts_before is)
    ∙ ap (λ c. if inside m i then true else c) (covered-sort m is)

sorted-StartsAfter :
    (n : ℕ) (is : List MinuteInterval)
    → All (λ i. n ≤ i.start_min) is
    → IsSorted starts_before is
    → StartsAfter n is
sorted-StartsAfter n [] h s = tt
sorted-StartsAfter n (i ∷ is) h s = (
  h.0,
  sorted-StartsAfter i.start_min is
      (All-map (λ x. starts_before i x ≡ true) (λ x. i.start_min ≤ x.start_min)
        (λ x k. ground arith) is s.0)
      s.1,
)

starts_before_trans :
    (a b c : MinuteInterval)
    → starts_before a b ≡ true
    → starts_before b c ≡ true
    → starts_before a c ≡ true
starts_before_trans a b c h k = ground arith

starts_before_total : (a b : MinuteInterval) → starts_before a b ≡ false → starts_before b a ≡ true
starts_before_total a b h = ground arith

from_zero : (is : List MinuteInterval) → All (λ i. 0 ≤ i.start_min) is
from_zero [] = tt
from_zero (i ∷ is) = (omega arith, from_zero is)

pub intervals-StartsAfter :
    (day buffer : ℕ) (appts : List Appointment)
    → StartsAfter 0 (appointments_to_intervals day buffer appts)
unfolding appointments_to_intervals
intervals-StartsAfter day buffer appts =
    let is = map (appointment_interval day buffer) (filter (in_day day) appts) in
    sorted-StartsAfter 0 (sort starts_before is) (from_zero (sort starts_before is))
      (sort-IsSorted starts_before starts_before_trans starts_before_total is)

-- A minute in no hole is in the interval of no appointment of the day.
pub uncovered-intervals :
    (m day buffer : ℕ) (appts : List Appointment)
    → covered (appointments_to_intervals day buffer appts) m ≡ false
    → All (λ a. in_day day a ≡ true → inside m (appointment_interval day buffer a) ≡ false) appts
unfolding appointments_to_intervals
uncovered-intervals m day buffer appts h =
    each appts
      (sym (covered-sort m (map (appointment_interval day buffer) (filter (in_day day) appts))) ∙ h)
  where
    each :
        (xs : List Appointment)
        → covered (map (appointment_interval day buffer) (filter (in_day day) xs)) m ≡ false
        → All (λ a. in_day day a ≡ true → inside m (appointment_interval day buffer a) ≡ false) xs
    each [] k = tt
    each (x ∷ xs) k = elim (Bool-cases (in_day day x)) [
      | inl here ↦
          let k' = rw here at k in
          elim (Bool-cases (inside m (appointment_interval day buffer x))) [
            | inl hit ↦ absurd (let k'' = rw hit at k' in cc)
            | inr miss ↦ ((λ e. miss), each xs (rw miss at k'))
          ]
      | inr away ↦ ((λ e. absurd (cc)), each xs (rw away at k))
    ]

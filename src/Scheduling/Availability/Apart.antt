-- ===== src/Scheduling/Availability/Apart.antt =====
-- A slot whose minutes are free overlaps no appointment.
use detailing_studio.Prelude.{
  ℕ, ◌+◌, ◌-◌, ◌*◌, ◌≤◌, ◌<◌, ◌≡◌, refl, sym, ◌∙◌, ◌⊎◌, inl, inr, Bool, true, false, not, ◌&&◌,
  List, [], ◌∷◌, map, arith, ltb, leb, ◌==◌, filter, All, All-map, All-forall, any, max, Result, ok,
  err, Bool-cases, String,
}
use detailing_studio.Scheduling.Hours.{HoursError, TimeRange}
use detailing_studio.Scheduling.Intervals.{inside, covered, subtract_intervals}
use detailing_studio.Scheduling.Intervals.Laws.{covered-subtract_intervals}
use detailing_studio.Scheduling.MasterSchedule.{MasterSchedule}
use detailing_studio.Scheduling.Appointment.{
  Appointment, AppointmentStatus, completed, cancelled, no_show, ms_per_minute, overlaps, time_slot,
}
use detailing_studio.Scheduling.Availability.{
  AvailableSlot, AvailabilityQuery, in_day, is_blocking, appointment_interval,
  appointments_to_intervals, to_interval, slot_at, lift_hours,
}
use detailing_studio.Scheduling.Availability.Overlap.{
  keeps_apart, intervals-StartsAfter, uncovered-intervals,
}
use detailing_studio.Scheduling.Availability.Common.{WithinDay}

-- Every appointment of the list lasts.
abbrev pub Lasting : List Appointment → Type 0
Lasting = All (λ a. a.slot.start < a.slot.end)

apart_overlap :
    (day buffer s d : ℕ) (a : Appointment)
    → 0 < d
    → s + d ≤ 1440
    → a.slot.start < a.slot.end
    → (in_day day a ≡ true
        → (m : ℕ) → s ≤ m
        → m < s + d
        → inside m (appointment_interval day buffer a) ≡ false)
    → (ltb a.slot.start (day + (s + d) * ms_per_minute) && ltb (day + s * ms_per_minute) a.slot.end)
      ≡ false
apart_overlap day buffer s d a pos fits real free = elim (Bool-cases (in_day day a)) [
  | inl here ↦
      let first = max s (appointment_interval day buffer a).start_min in
      elim (keeps_apart day buffer s d a pos fits real here
        (λ below. free here first (omega arith) below)) [
          | inl after ↦ ground arith
          | inr before ↦ ground arith
        ]
  | inr away ↦ ground arith
]

-- The appointment is neither over nor called off.
abbrev pub is_unfinished : AppointmentStatus → Bool
is_unfinished completed = false
is_unfinished cancelled = false
is_unfinished no_show = false
is_unfinished s = true

is_unfinished-eq-is_blocking : (s : AppointmentStatus) → is_unfinished s ≡ is_blocking s
is_unfinished-eq-is_blocking s = ground arith

-- The slot of a master meets one of the master's appointments that are not over or called off.
abbrev pub double_books : List Appointment → AvailableSlot → Bool
double_books appts x =
    any (λ a. is_unfinished a.status && (a.master_id == x.master_id && overlaps a.slot x.slot))
      appts

-- The slot lasts as long as the services and double-books nobody.
abbrev pub Free : AvailabilityQuery → AvailableSlot → Type 0
Free q x =
    (x.slot.end ≡ x.slot.start + q.services_duration * ms_per_minute)
    × (double_books q.existing_appointments x ≡ false)

minutes_within :
    (m : ℕ) (rs : List TimeRange) → WithinDay rs → covered (map to_interval rs) m ≡ true → m < 1440
minutes_within m [] d h = absurd (cc)
minutes_within m (r ∷ rs) d h = ground (arith, minutes_within m rs d.1)

-- A minute of a free window is one of the day, and in the interval of no appointment.
pub free_minute :
    (m day buffer : ℕ) (rs : List TimeRange) (appts : List Appointment)
    → WithinDay rs
    → covered
        (subtract_intervals (map to_interval rs) (appointments_to_intervals day buffer appts))
        m
      ≡ true
    → (m < 1440) × (covered (appointments_to_intervals day buffer appts) m ≡ false)
free_minute m day buffer rs appts d h =
    let ws = map to_interval rs in
    let holes = appointments_to_intervals day buffer appts in
    let exact = covered-subtract_intervals m 0 ws holes (intervals-StartsAfter day buffer appts) in
    let both : (covered ws m && not (covered holes m)) ≡ true = sym exact ∙ h in
    (
      minutes_within m rs d (left (covered ws m) (covered holes m) both),
      right (covered ws m) (covered holes m) both,
    )
  where
    left : (a b : Bool) → (a && not b) ≡ true → a ≡ true
    left true b h = refl
    left false b h = absurd (cc)

    right : (a b : Bool) → (a && not b) ≡ true → b ≡ false
    right true true h = absurd (cc)
    right true false h = refl
    right false b h = absurd (cc)

-- A slot whose minutes are of the day and in no interval overlaps no appointment.
pub slot_apart :
    (day buffer s d : ℕ) (appts : List Appointment)
    → 0 < d
    → Lasting appts
    → ((m : ℕ)
        → s ≤ m
        → m < s + d
        → (m < 1440) × (covered (appointments_to_intervals day buffer appts) m ≡ false))
    → All
        (λ a.
          (ltb a.slot.start (day + (s + d) * ms_per_minute)
            && ltb (day + s * ms_per_minute) a.slot.end)
          ≡ false)
        appts
slot_apart day buffer s d appts pos real free = each appts real (
    All-forall
      (λ m a.
        s ≤ m
        → m < s + d
        → in_day day a ≡ true
        → inside m (appointment_interval day buffer a) ≡ false)
      appts (λ m. outside m (Bool-cases (leb s m && ltb m (s + d)))))
  where
    outside :
        (m : ℕ)
        → ((leb s m && ltb m (s + d)) ≡ true) ⊎ ((leb s m && ltb m (s + d)) ≡ false)
        → All
            (λ a.
              s ≤ m
              → m < s + d
              → in_day day a ≡ true
              → inside m (appointment_interval day buffer a) ≡ false)
            appts
    outside m (inl at) =
        All-map (λ a. in_day day a ≡ true → inside m (appointment_interval day buffer a) ≡ false) _
          (λ a f from to. f) appts
          (uncovered-intervals m day buffer appts (free m (ground arith) (ground arith)).1)
    outside m (inr away) =
        All-map (λ a. a.slot.start < a.slot.end) _ (λ a f from to here. absurd (ground arith)) appts
          real

    last_fits : s + d ≤ 1440
    last_fits =
        let last = free (s + (d - 1)) (omega arith) (omega arith) in
        let below = last.0 in omega arith

    each :
        (xs : List Appointment)
        → Lasting xs
        → All
            (λ a.
              (m : ℕ)
              → s ≤ m
              → m < s + d
              → in_day day a ≡ true
              → inside m (appointment_interval day buffer a) ≡ false)
            xs
        → All
            (λ a.
              (ltb a.slot.start (day + (s + d) * ms_per_minute)
                && ltb (day + s * ms_per_minute) a.slot.end)
              ≡ false)
            xs
    each [] l h = tt
    each (x ∷ xs) l h = (
      apart_overlap day buffer s d x pos last_fits l.0 (λ here m from to. h.0 m from to here),
      each xs l.1 h.1,
    )

pub lift_hours_ok : {A : Type 0} (r : Result HoursError A) {a : A} → lift_hours r ≡ ok a → r ≡ ok a
lift_hours_ok (ok x) h = cc
lift_hours_ok (err x) h = absurd (cc)

-- The filters by status and by master, turned into the test of a slot.
pub no_double :
    (appts : List Appointment) (x : AvailableSlot)
    → All
        (λ a. overlaps a.slot x.slot ≡ false)
        (filter (λ a. a.master_id == x.master_id) (filter (λ a. is_blocking a.status) appts))
    → double_books appts x ≡ false
no_double [] x h = refl
no_double (a ∷ appts) x h =
    let status = is_unfinished-eq-is_blocking a.status in
    elim (Bool-cases (is_blocking a.status)) [
      | inl blocks ↦
          let h' = rw blocks at h in
          elim (Bool-cases (a.master_id == x.master_id)) [
            | inl own ↦
                let h'' = rw own at h' in rw (status, blocks, own, h''.0) (no_double appts x h''.1)
            | inr other ↦ rw (status, blocks, other) (no_double appts x (rw other at h'))
          ]
      | inr over ↦ rw (status, over) (no_double appts x (rw over at h))
    ]

-- What `slot_at` makes.
pub slot_at_lem :
    (duration : ℕ) (timezone : String) (day : ℕ) (master : MasterSchedule) (s : ℕ)
    (x : AvailableSlot)
    → slot_at duration timezone day master s ≡ ok x
    → (x.master_id ≡ master.master_id)
      × (x.slot.start ≡ day + s * ms_per_minute)
      × (x.slot.end ≡ day + (s + duration) * ms_per_minute)
unfolding time_slot
slot_at_lem duration timezone day master s x h = ground arith

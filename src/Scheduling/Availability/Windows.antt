-- ===== src/Scheduling/Availability/Windows.antt =====
-- What holds of the slots in the free windows of a day.
use detailing_studio.Prelude.{
  ℕ, zero, suc, ◌+◌, ◌-◌, ◌≤◌, ◌≡◌, inl, inr, true, List, [], ◌∷◌, ◌++◌, arith, ltb, leb, All,
  All-append, Result, ok, bind_ok, Bool-cases,
}
use detailing_studio.Scheduling.Intervals.{MinuteInterval, inside, covered}
use detailing_studio.Scheduling.Availability.{
  AvailabilityError, AvailableSlot, slots_from, window_slots, out_of_fuel,
}

-- What holds of each window, where it holds of each minute that the windows cover.
pub windows_lem :
    (P : ℕ → Type 0) (ws : List MinuteInterval)
    → ((m : ℕ) → covered ws m ≡ true → P m)
    → All (λ w. (m : ℕ) → inside m w ≡ true → P m) ws
windows_lem P [] h = tt
windows_lem P (w ∷ ws) h = ((λ m at. h m (rw at)), windows_lem P ws (λ m at. h m (ground arith)))

module _ {A E : Type 0} (Q : A → Type 0) (stuck : E) (duration step : ℕ)
    (make : ℕ → Result E A) where
  slots_from-All :
      (fuel start end : ℕ) {xs : List A}
      → ((s : ℕ) (x : A) → start ≤ s → s + duration ≤ end → make s ≡ ok x → Q x)
      → slots_from stuck fuel duration step start end make ≡ ok xs
      → All Q xs
  unfolding slots_from
  slots_from-All zero start end h e = absurd (cc)
  slots_from-All (suc fuel) start end {xs} h e = elim (Bool-cases (leb (start + duration) end)) [
    | inl fits ↦
        let (x, made, e') = bind_ok (make start) _ (rw fits at e) in
        let (rest, more, e'') =
          bind_ok (slots_from stuck fuel duration step (start + step) end make) _ e' in
        let same : xs ≡ x ∷ rest = cc in
        rw same (
          h start x (omega arith) (ground arith) made,
          slots_from-All fuel (start + step) end (λ s y from. h s y (omega arith)) more,
        )
    | inr past ↦ let e' = rw past at e in let same : xs ≡ [] = cc in rw same tt
  ]

-- A start from which the slot lies in the window.
abbrev pub Fits : ℕ → ℕ → MinuteInterval → Type 0
Fits duration s w = (w.start_min ≤ s) × (s + duration ≤ w.end_min)

module _ (Q : AvailableSlot → Type 0) (fuel duration step : ℕ)
    (make : ℕ → Result AvailabilityError AvailableSlot) where
  pub window_slots-All :
      (ws : List MinuteInterval) {xs : List AvailableSlot}
      → All (λ w. (s : ℕ) (x : AvailableSlot) → Fits duration s w → make s ≡ ok x → Q x) ws
      → window_slots fuel duration step make ws ≡ ok xs
      → All Q xs
  unfolding window_slots
  window_slots-All [] {xs} h e = let same : xs ≡ [] = cc in rw same tt
  window_slots-All (w ∷ ws) {xs} h e = elim (Bool-cases (ltb (w.end_min - w.start_min) duration)) [
    | inl short ↦ window_slots-All ws h.1 (rw short at e)
    | inr long ↦
        let (slots, here, e') =
          bind_ok (slots_from out_of_fuel fuel duration step w.start_min w.end_min make) _
            (rw long at e) in
        let (more, rest, e'') = bind_ok (window_slots fuel duration step make ws) _ e' in
        let same : xs ≡ slots ++ more = cc in
        rw same (
          All-append Q slots more
            (slots_from-All Q out_of_fuel duration step make fuel w.start_min w.end_min
              (λ s x from to made. h.0 s x (from, to) made) here)
            (window_slots-All ws h.1 rest))
  ]

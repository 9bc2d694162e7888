-- ===== src/Scheduling/MasterSchedule/Laws.antt =====
-- The unavailabilities of a master never overlap.
use detailing_studio.Prelude.{
  ℕ, ◌≡◌, refl, false, List, [], ◌∷◌, ◌++◌, String, arith, ok, any, All, leb, ◌||◌, true,
}
use detailing_studio.Scheduling.BranchSchedule.{WeeklyPattern}
use detailing_studio.Scheduling.MasterSchedule.{
  MasterSchedule, Unavailability, overlaps_with, create, replace_weekly_pattern, add_unavailability,
  drop_unavailability, remove_unavailability,
}

-- The test of the code fails for every two periods of a list.
abbrev Unclashing : List Unavailability → Type 0
Unclashing [] = Unit
Unclashing (u ∷ us) = (any (λ v. overlaps_with v u) us ≡ false) × Unclashing us

overlaps-append :
    (u v : Unavailability) (us : List Unavailability)
    → any (λ x. overlaps_with x u) us ≡ false
    → overlaps_with u v ≡ false
    → any (λ x. overlaps_with x u) (us ++ v ∷ []) ≡ false
overlaps-append u v [] h k = ground arith
overlaps-append u v (x ∷ us) h k = ground (arith, overlaps-append u v us)

append-Unclashing :
    (us : List Unavailability) (u : Unavailability)
    → Unclashing us
    → any (λ v. overlaps_with v u) us ≡ false
    → Unclashing (us ++ u ∷ [])
append-Unclashing [] u d h = (refl, tt)
append-Unclashing (x ∷ us) u d h =
    (overlaps-append x u us d.0 (ground arith), append-Unclashing us u d.1 (ground arith))

overlaps-drop :
    (v : Unavailability) (id : ℕ) (us : List Unavailability)
    → any (λ x. overlaps_with x v) us ≡ false
    → any (λ x. overlaps_with x v) (drop_unavailability id us) ≡ false
unfolding drop_unavailability
overlaps-drop v id [] h = refl
overlaps-drop v id (u ∷ us) h = ground (arith, overlaps-drop v id us)

drop-Unclashing :
    (id : ℕ) (us : List Unavailability) → Unclashing us → Unclashing (drop_unavailability id us)
unfolding drop_unavailability
drop-Unclashing id [] d = tt
drop-Unclashing id (u ∷ us) d = ground (arith, drop-Unclashing id us d.1, overlaps-drop u id us d.0)

-- One successful call of a method that changes a schedule.
pub data MasterStep (s s' : MasterSchedule) : Type 0 where
  replaces : (p : WeeklyPattern) (now : ℕ) → s' ≡ replace_weekly_pattern p now s → MasterStep s s'
  adds :
      (from to : ℕ) (reason : String) (id now u : ℕ)
      → add_unavailability from to reason id now s ≡ ok (s', u)
      → MasterStep s s'
  removes : (id now : ℕ) → remove_unavailability id now s ≡ ok s' → MasterStep s s'

pub data MasterReach (s : MasterSchedule) : MasterSchedule → Type 0 where
  here : MasterReach s s
  next : {t u : MasterSchedule} → MasterReach s t → MasterStep t u → MasterReach s u

step-Unclashing :
    (s s' : MasterSchedule)
    → MasterStep s s'
    → Unclashing s.unavailabilities
    → Unclashing s'.unavailabilities
unfolding replace_weekly_pattern add_unavailability remove_unavailability
step-Unclashing s s' (replaces p now e) d = rw e d
step-Unclashing s s' (adds from to reason id now u e) d =
    let new : Unavailability = record { id = id; from_at = from; to_at = to; reason = reason } in
    let longer : s'.unavailabilities ≡ s.unavailabilities ++ new ∷ [] = ground arith in
    let apart : any (λ v. overlaps_with v new) s.unavailabilities ≡ false = ground arith in
    rw longer (append-Unclashing s.unavailabilities new d apart)
step-Unclashing s s' (removes id now e) d =
    let shorter : s'.unavailabilities ≡ drop_unavailability id s.unavailabilities = ground arith in
    rw shorter (drop-Unclashing id s.unavailabilities d)

reach-Unclashing :
    {s s' : MasterSchedule}
    → MasterReach s s'
    → Unclashing s.unavailabilities
    → Unclashing s'.unavailabilities
reach-Unclashing here d = d
reach-Unclashing (next r st) d = step-Unclashing _ _ st (reach-Unclashing r d)

-- Of every two periods of a list, one ends no later than the other begins.
abbrev pub Disjoint : List Unavailability → Type 0
Disjoint [] = Unit
Disjoint (u ∷ us) =
    All (λ v. (leb u.to_at v.from_at || leb v.to_at u.from_at) ≡ true) us × Disjoint us

apart_lem :
    (u : Unavailability) (us : List Unavailability)
    → any (λ v. overlaps_with v u) us ≡ false
    → All (λ v. (leb u.to_at v.from_at || leb v.to_at u.from_at) ≡ true) us
apart_lem u [] h = tt
apart_lem u (v ∷ us) h = (ground arith, apart_lem u us (ground arith))

Unclashing-Disjoint : (us : List Unavailability) → Unclashing us → Disjoint us
Unclashing-Disjoint [] d = tt
Unclashing-Disjoint (u ∷ us) d = (apart_lem u us d.0, Unclashing-Disjoint us d.1)

-- After any successful calls on a new schedule, of any two of its unavailabilities one ends no later
-- than the other begins.
pub master_history-Disjoint :
    (id master branch now : ℕ) (p : WeeklyPattern) {s : MasterSchedule}
    → MasterReach (create id master branch p now) s
    → Disjoint s.unavailabilities
unfolding create
master_history-Disjoint id master branch now p {s} r =
    Unclashing-Disjoint s.unavailabilities (reach-Unclashing r tt)

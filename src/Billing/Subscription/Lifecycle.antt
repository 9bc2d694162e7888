-- ===== src/Billing/Subscription/Lifecycle.antt =====
-- The life of a subscription, over all its methods.
use detailing_studio.Prelude.{
  ℕ, ◌≡◌, refl, ◌⊎◌, inr, Bool, true, false, not, ◌&&◌, Option, none, some, [], String, arith,
  Result, ok, ◌++◌, ◌∷◌, ◌∙◌,
}
use detailing_studio.Billing.Subscription.{
  PlanCode, SubscriptionStatus, trial, active, past_due, cancelled, SubscriptionError, Subscription,
  start_trial, activate, mark_activated, advance_period, mark_past_due, is_cancelled, cancel,
  change_plan, activated, reactivated, moved_to_past_due,
}

pub data Command : Type 0 where
  activates : ℕ → Option ℕ → Command
  falls_due advances : ℕ → Command
  cancels : String → String → ℕ → Command
  changes_plan : PlanCode → ℕ → Command

abbrev pub is_trial : SubscriptionStatus → Bool
is_trial trial = true
is_trial s = false

abbrev pub allowed : SubscriptionStatus → SubscriptionStatus → Bool
allowed trial active = true
allowed past_due active = true
allowed trial past_due = true
allowed active past_due = true
allowed trial cancelled = true
allowed active cancelled = true
allowed past_due cancelled = true
allowed _ _ = false

abbrev pub is_some {ℓ} : {A : Type ℓ} → Option A → Bool
is_some none = false
is_some (some a) = true

-- A subscription has a time and a reason of its cancellation just where it is cancelled, and during a
-- trial it has an end of the trial.
pub record IsValid (s : Subscription) : Type 0 where
  pub cancelled_time : is_some s.cancelled_at ≡ is_cancelled s.status
  pub cancelled_reason : is_some s.cancel_reason ≡ is_cancelled s.status
  pub trial_end : (is_trial s.status && not (is_some s.trial_ends_at)) ≡ false

module _ (plus_days plus_months : ℕ → ℕ → ℕ) where
  unfoldable pub run_command : Command → Subscription → Result SubscriptionError Subscription
  unfolding mark_activated advance_period mark_past_due cancel change_plan
  run_command (activates now paid_until) s = mark_activated plus_months now paid_until s
  run_command (falls_due now) s = mark_past_due now s
  run_command (advances now) s = ok (advance_period plus_months now s)
  run_command (cancels by reason now) s = cancel by reason now s
  run_command (changes_plan plan now) s = change_plan plan now s

  activate-allowed :
      (from : SubscriptionStatus) (now : ℕ) (paid_until : Option ℕ) (s : Subscription)
      {s' : Subscription}
      → activate plus_months from now paid_until s ≡ ok s'
      → (s'.status ≡ active) × (allowed from active ≡ true)
  unfolding activate
  activate-allowed trial now paid_until s e = ground arith
  activate-allowed past_due now none s e = ground arith
  activate-allowed past_due now (some t) s e = ground arith
  activate-allowed active now paid_until s e = ground arith
  activate-allowed cancelled now paid_until s e = ground arith

  -- Every call that succeeds leaves the status as it is or takes it along an allowed transition.
  pub run_command-allowed :
      (c : Command) (s : Subscription) {s' : Subscription}
      → run_command c s ≡ ok s'
      → (s'.status ≡ s.status) ⊎ (allowed s.status s'.status ≡ true)
  unfolding run_command
  run_command-allowed (activates now paid_until) s e =
      let moved = activate-allowed s.status now paid_until s e in inr (rw moved.0 moved.1)
  run_command-allowed (advances now) s e = ground arith
  run_command-allowed c s e = ground arith

  activate-IsValid :
      (from : SubscriptionStatus) (now : ℕ) (paid_until : Option ℕ) (s : Subscription)
      {s' : Subscription}
      → s.status ≡ from
      → activate plus_months from now paid_until s ≡ ok s'
      → IsValid s
      → IsValid s'
  unfolding activate
  activate-IsValid trial now paid_until s at e v = ground arith
  activate-IsValid past_due now none s at e v = ground arith
  activate-IsValid past_due now (some t) s at e v = ground arith
  activate-IsValid active now paid_until s at e v = ground arith
  activate-IsValid cancelled now paid_until s at e v = ground arith

  run_command-IsValid :
      (c : Command) (s : Subscription) {s' : Subscription}
      → run_command c s ≡ ok s'
      → IsValid s
      → IsValid s'
  unfolding run_command
  run_command-IsValid (activates now paid_until) s e v =
      activate-IsValid s.status now paid_until s refl e v
  run_command-IsValid c s e v = ground arith

  -- The histories of a subscription.
  pub data Reach (s : Subscription) : Subscription → Type 0 where
    here : Reach s s
    next : {t u : Subscription} (c : Command) → Reach s t → run_command c t ≡ ok u → Reach s u

  reach-IsValid : {s t : Subscription} → Reach s t → IsValid s → IsValid t
  reach-IsValid here v = v
  reach-IsValid (next c r e) v = run_command-IsValid c _ e (reach-IsValid r v)

  -- After any successful calls on a subscription that began with a trial, it has a time and a reason
  -- of its cancellation just where it is cancelled, and during a trial an end of the trial.
  pub trial_history-IsValid :
      (id tenant now : ℕ) (plan : PlanCode) (days : Option ℕ) {t : Subscription}
      → Reach (start_trial plus_days id tenant plan days now) t
      → IsValid t
  unfolding start_trial
  trial_history-IsValid id tenant now plan days r =
      reach-IsValid r (record { cancelled_time = refl; cancelled_reason = refl; trial_end = refl })

  cancelled_step :
      (c : Command) (s : Subscription) {s' : Subscription}
      → run_command c s ≡ ok s'
      → s.status ≡ cancelled
      → (s'.status ≡ cancelled) × (s'.plan_code ≡ s.plan_code) × (s'.cancelled_at ≡ s.cancelled_at)
  unfolding run_command activate
  cancelled_step (activates now paid_until) s e at = absurd (let e' = rw at at e in cc)
  cancelled_step c s e at = ground arith

  -- Whatever is called on a cancelled subscription, it stays cancelled, with its plan and the time of
  -- its cancellation.
  pub cancelled_stays :
      {s t : Subscription}
      → Reach s t
      → s.status ≡ cancelled
      → (t.status ≡ cancelled) × (t.plan_code ≡ s.plan_code) × (t.cancelled_at ≡ s.cancelled_at)
  cancelled_stays here at = (at, refl, refl)
  cancelled_stays (next c r e) at =
      let (before, plan, time) = cancelled_stays r at in
      let (after, plan', time') = cancelled_step c _ e before in (after, plan' ∙ plan, time' ∙ time)

  -- A subscription whose trial lapsed keeps the end of the trial when it is paid for and active again,
  -- while one that is activated during the trial has none.
  pub lapsed_trial_keeps_end :
      (s : Subscription) (due now paid : ℕ)
      → s.status ≡ trial
      → (direct lapsed back : Subscription) × (run_command (activates now (some paid)) s
          ≡ ok direct)
        × (direct.status ≡ active)
        × (direct.trial_ends_at ≡ none)
        × (run_command (falls_due due) s ≡ ok lapsed)
        × (run_command (activates now (some paid)) lapsed ≡ ok back)
        × (back.status ≡ active)
        × (back.trial_ends_at ≡ s.trial_ends_at)
  unfolding run_command activate
  lapsed_trial_keeps_end s due now paid at =
      let next_billing = plus_months s.next_billing_at 1 in
      let lapsed : Subscription = record s {
        status = past_due;
        updated_at = due;
        events = s.events ++ moved_to_past_due s.id due ∷ [];
      } in
      (
        record s {
          status = active;
          trial_ends_at = none;
          next_billing_at = next_billing;
          updated_at = now;
          events = s.events ++ activated s.id s.plan_code next_billing now ∷ [];
        },
        lapsed,
        record lapsed {
          status = active;
          next_billing_at = paid;
          updated_at = now;
          events = lapsed.events ++ reactivated s.id s.plan_code paid now ∷ [];
        },
        rw at,
        refl,
        refl,
        rw at,
        refl,
        refl,
        refl,
      )

-- ===== src/Billing/Subscription.antt =====
-- libs/backend/billing/domain/src/subscription: subscription.aggregate.ts, subscription.events.ts and
-- subscription.errors.ts. A time is its milliseconds; `plus_days` and `plus_months` stand for the
-- calendar of `Date`, which `DateTime.plusDays` and `DateTime.plusMonths` call.
pub mod Lifecycle
use detailing_studio.Prelude.{
  ℕ, ◌+◌, Bool, true, false, not, ◌&&◌, ◌||◌, Option, none, some, List, [], ◌∷◌, ◌++◌, String,
  Result, ok, err, ◌>>=◌, ◌>>◌, throw_if,
}

pub data PlanCode : Type 0 where
  starter standard pro : PlanCode

abbrev pub plan_eq : PlanCode → PlanCode → Bool
plan_eq starter starter = true
plan_eq standard standard = true
plan_eq pro pro = true
plan_eq _ _ = false

pub data SubscriptionStatus : Type 0 where
  trial active past_due cancelled : SubscriptionStatus

pub data SubscriptionError : Type 0 where
  invalid_transition : SubscriptionStatus → SubscriptionStatus → SubscriptionError
  already_cancelled paid_until_required : SubscriptionError
  same_plan : PlanCode → SubscriptionError

pub data SubscriptionEvent : Type 0 where
  started_trial : ℕ → ℕ → PlanCode → ℕ → ℕ → SubscriptionEvent
  activated reactivated : ℕ → PlanCode → ℕ → ℕ → SubscriptionEvent
  moved_to_past_due : ℕ → ℕ → SubscriptionEvent
  subscription_cancelled : ℕ → String → String → SubscriptionStatus → ℕ → SubscriptionEvent
  plan_changed : ℕ → PlanCode → PlanCode → ℕ → SubscriptionEvent
  period_advanced : ℕ → ℕ → ℕ → ℕ → SubscriptionEvent

pub record Subscription : Type 0 where
  pub id : ℕ
  pub tenant_id : ℕ
  pub plan_code : PlanCode
  pub status : SubscriptionStatus
  pub current_period_started_at : ℕ
  pub next_billing_at : ℕ
  pub trial_ends_at : Option ℕ
  pub cancelled_at : Option ℕ
  pub cancel_reason : Option String
  pub created_at : ℕ
  pub updated_at : ℕ
  pub events : List SubscriptionEvent

abbrev add_event : SubscriptionEvent → Subscription → Subscription
add_event e s = record s { events = s.events ++ e ∷ [] }

abbrev or_default : Option ℕ → ℕ
or_default none = 14
or_default (some days) = days

module _ (plus_days : ℕ → ℕ → ℕ) where
  unfoldable pub start_trial : ℕ → ℕ → PlanCode → Option ℕ → ℕ → Subscription
  start_trial id tenant_id plan_code trial_duration_days now =
      let trial_ends = plus_days now (or_default trial_duration_days) in
      record {
        id = id;
        tenant_id = tenant_id;
        plan_code = plan_code;
        status = trial;
        current_period_started_at = now;
        next_billing_at = trial_ends;
        trial_ends_at = some trial_ends;
        cancelled_at = none;
        cancel_reason = none;
        created_at = now;
        updated_at = now;
        events = started_trial id tenant_id plan_code trial_ends now ∷ [];
      }

module _ (plus_months : ℕ → ℕ → ℕ) where
  unfoldable pub start_active : ℕ → ℕ → PlanCode → ℕ → Subscription
  start_active id tenant_id plan_code now =
      let next_billing = plus_months now 1 in
      record {
        id = id;
        tenant_id = tenant_id;
        plan_code = plan_code;
        status = active;
        current_period_started_at = now;
        next_billing_at = next_billing;
        trial_ends_at = none;
        cancelled_at = none;
        cancel_reason = none;
        created_at = now;
        updated_at = now;
        events = activated id plan_code next_billing now ∷ [];
      }

  -- The branches of `markActivated` by the status and `paidUntil`.
  unfoldable pub activate :
      SubscriptionStatus → ℕ → Option ℕ → Subscription → Result SubscriptionError Subscription
  activate trial now paid_until s =
      let next_billing = plus_months s.next_billing_at 1 in
      ok (
        add_event (activated s.id s.plan_code next_billing now) (record s {
          status = active;
          trial_ends_at = none;
          next_billing_at = next_billing;
          updated_at = now;
        }))
  activate past_due now none s = err paid_until_required
  activate past_due now (some paid_until) s = ok (
      add_event (reactivated s.id s.plan_code paid_until now)
        (record s { status = active; next_billing_at = paid_until; updated_at = now }))
  activate active now paid_until s = err (invalid_transition active active)
  activate cancelled now paid_until s = err (invalid_transition cancelled active)

  unfoldable pub mark_activated :
      ℕ → Option ℕ → Subscription → Result SubscriptionError Subscription
  unfolding activate
  mark_activated now paid_until s = activate s.status now paid_until s

  unfoldable pub advance_period : ℕ → Subscription → Subscription
  advance_period now s =
      let new_period_start = s.next_billing_at in
      let new_next_billing = plus_months s.next_billing_at 1 in
      add_event (period_advanced s.id new_period_start new_next_billing now) (record s {
        current_period_started_at = new_period_start;
        next_billing_at = new_next_billing;
        updated_at = now;
      })

abbrev is_trial_or_active : SubscriptionStatus → Bool
is_trial_or_active trial = true
is_trial_or_active active = true
is_trial_or_active s = false

unfoldable pub mark_past_due : ℕ → Subscription → Result SubscriptionError Subscription
mark_past_due now s = do
  throw_if (not (is_trial_or_active s.status)) (invalid_transition s.status past_due)
  ok (add_event (moved_to_past_due s.id now) (record s { status = past_due; updated_at = now }))

abbrev pub is_cancelled : SubscriptionStatus → Bool
is_cancelled cancelled = true
is_cancelled s = false

unfoldable pub cancel : String → String → ℕ → Subscription → Result SubscriptionError Subscription
cancel by reason now s = do
  throw_if (is_cancelled s.status) already_cancelled
  ok (
      add_event (subscription_cancelled s.id by reason s.status now) (record s {
        status = cancelled;
        cancelled_at = some now;
        cancel_reason = some reason;
        updated_at = now;
      }))

unfoldable pub change_plan : PlanCode → ℕ → Subscription → Result SubscriptionError Subscription
change_plan new_plan now s = do
  throw_if (is_cancelled s.status) already_cancelled
  throw_if (plan_eq s.plan_code new_plan) (same_plan new_plan)
  ok (
      add_event (plan_changed s.id s.plan_code new_plan now)
        (record s { plan_code = new_plan; updated_at = now }))

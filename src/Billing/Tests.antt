-- ===== src/Billing/Tests.antt =====
-- The theorems on billing at concrete subscriptions, invoices and uses.
use detailing_studio.Prelude.{ℕ, ◌+◌, ◌*◌, ◌≡◌, ◌⊎◌, refl, true, [], ◌∷◌, ◌++◌, none, some}
use detailing_studio.Billing.Subscription.{
  SubscriptionStatus, starter, Subscription, active, past_due, cancelled, start_trial,
  mark_past_due, moved_to_past_due,
}
use detailing_studio.Billing.Subscription.Lifecycle.{
  IsValid, falls_due, allowed, run_command, here, next, run_command-allowed, trial_history-IsValid,
}
use detailing_studio.Billing.Invoice.{
  Invoice, Period, issued, paid, issue, mark_paid, mark_voided, pays, voids, run_invoice,
  invoice_paid, IsSettledOnce, invoice_history-IsSettledOnce, settled_refuses,
}
use detailing_studio.Billing.Invoice
use detailing_studio.Billing.Limits.{LimitsUsage}

-- Days, and months of 30 days, in milliseconds.
abbrev days_on : ℕ → ℕ → ℕ
days_on t n = t + n * 86400000

abbrev months_on : ℕ → ℕ → ℕ
months_on t n = t + n * 2592000000

abbrev sub : SubscriptionStatus → Subscription
sub status = record {
  id = 1;
  tenant_id = 2;
  plan_code = starter;
  status = status;
  current_period_started_at = 0;
  next_billing_at = 10;
  trial_ends_at = some 10;
  cancelled_at = none;
  cancel_reason = none;
  created_at = 0;
  updated_at = 0;
  events = [];
}

run_command-allowed_example : (past_due ≡ active) ⊎ (allowed active past_due ≡ true)
unfolding run_command mark_past_due
run_command-allowed_example = run_command-allowed days_on months_on (falls_due 5) (sub active) refl

trial_history-IsValid_example : IsValid (record (start_trial days_on 1 2 starter (some 7) 0) {
  status = past_due;
  updated_at = 9;
  events = (start_trial days_on 1 2 starter (some 7) 0).events ++ moved_to_past_due 1 9 ∷ [];
})
unfolding start_trial run_command mark_past_due
trial_history-IsValid_example =
    trial_history-IsValid days_on months_on 1 2 0 starter (some 7) (next (falls_due 9) here refl)

abbrev gone : Subscription
gone = record (sub cancelled) { cancelled_at = some 3; cancel_reason = some "moved" }

abbrev bill : Invoice
bill = record {
  id = 1;
  subscription_id = 1;
  plan_code = starter;
  amount = record { cents = 299000 };
  period = record { started_at = 0; ends_at = 10 };
  status = issued;
  issued_at = 0;
  paid_at = none;
  voided_at = none;
  payment_ref = none;
  events = Invoice.invoice_issued 1 1 starter (record { cents = 299000 }) 0 ∷ [];
}

abbrev paid_bill : Invoice
paid_bill = record bill {
  status = paid;
  paid_at = some 4;
  payment_ref = some "ref";
  events = bill.events ++ invoice_paid 1 1 4 ∷ [];
}

invoice_history-IsSettledOnce_example : IsSettledOnce paid_bill
unfolding issue run_invoice mark_paid
invoice_history-IsSettledOnce_example =
    invoice_history-IsSettledOnce 1 1 0 starter (record { cents = 299000 })
      (record { started_at = 0; ends_at = 10 }) (Invoice.next (pays "ref" 4) Invoice.here refl)

abbrev use_of : LimitsUsage
use_of = record { branches_used = 1; masters_used = 4; appointments_this_month_used = 170 }

-- ===== src/Billing/Invoice.antt =====
-- libs/backend/billing/domain/src/invoice: invoice.aggregate.ts, invoice.events.ts and
-- invoice.errors.ts, and value-objects/period.ts.
use detailing_studio.Prelude.{
  ℕ, ◌≡◌, refl, ◌≢◌, arith, Bool, true, false, Option, none, some, List, [], ◌∷◌, ◌++◌, String, leb,
  Result, ok, err, ◌>>◌, throw_if,
}
use detailing_studio.Shared.Money.{Money}
use detailing_studio.Billing.Subscription.{PlanCode}
use detailing_studio.Billing.Subscription.Lifecycle.{is_some}

pub data InvoiceStatus : Type 0 where
  issued paid voided : InvoiceStatus

pub data InvoiceError : Type 0 where
  invoice_already_paid invoice_already_voided period_reversed : InvoiceError
  invalid_invoice_transition : InvoiceStatus → InvoiceStatus → InvoiceError

pub record Period : Type 0 where
  pub started_at : ℕ
  pub ends_at : ℕ

unfoldable pub period : ℕ → ℕ → Result InvoiceError Period
period started_at ends_at = do
  throw_if (leb ends_at started_at) period_reversed
  ok (record { started_at = started_at; ends_at = ends_at })

pub data InvoiceEvent : Type 0 where
  invoice_issued : ℕ → ℕ → PlanCode → Money → ℕ → InvoiceEvent
  invoice_paid : ℕ → ℕ → ℕ → InvoiceEvent
  invoice_voided : ℕ → String → ℕ → InvoiceEvent

pub record Invoice : Type 0 where
  pub id : ℕ
  pub subscription_id : ℕ
  pub plan_code : PlanCode
  pub amount : Money
  pub period : Period
  pub status : InvoiceStatus
  pub issued_at : ℕ
  pub paid_at : Option ℕ
  pub voided_at : Option ℕ
  pub payment_ref : Option String
  pub events : List InvoiceEvent

abbrev add_event : InvoiceEvent → Invoice → Invoice
add_event e i = record i { events = i.events ++ e ∷ [] }

unfoldable pub issue : ℕ → ℕ → PlanCode → Money → Period → ℕ → Invoice
issue id subscription_id plan_code amount span now = record {
  id = id;
  subscription_id = subscription_id;
  plan_code = plan_code;
  amount = amount;
  period = span;
  status = issued;
  issued_at = now;
  paid_at = none;
  voided_at = none;
  payment_ref = none;
  events = invoice_issued id subscription_id plan_code amount now ∷ [];
}

-- The tests that `markPaid` begins with.
abbrev payable : InvoiceStatus → Result InvoiceError (Unit {0})
payable paid = err invoice_already_paid
payable voided = err (invalid_invoice_transition voided paid)
payable issued = ok tt

-- The tests that `markVoided` begins with.
abbrev voidable : InvoiceStatus → Result InvoiceError (Unit {0})
voidable voided = err invoice_already_voided
voidable paid = err (invalid_invoice_transition paid voided)
voidable issued = ok tt

unfoldable pub mark_paid : String → ℕ → Invoice → Result InvoiceError Invoice
mark_paid ref now i = do
  payable i.status
  ok (
      add_event (invoice_paid i.id i.subscription_id now)
        (record i { status = paid; paid_at = some now; payment_ref = some ref }))

unfoldable pub mark_voided : String → ℕ → Invoice → Result InvoiceError Invoice
mark_voided reason now i = do
  voidable i.status
  ok (
      add_event (invoice_voided i.id reason now)
        (record i { status = voided; voided_at = some now }))

pub data InvoiceCommand : Type 0 where
  pays voids : String → ℕ → InvoiceCommand

unfoldable pub run_invoice : InvoiceCommand → Invoice → Result InvoiceError Invoice
run_invoice (pays ref now) i = mark_paid ref now i
run_invoice (voids reason now) i = mark_voided reason now i

pub data InvoiceReach (i : Invoice) : Invoice → Type 0 where
  here : InvoiceReach i i
  next :
      {j k : Invoice} (c : InvoiceCommand)
      → InvoiceReach i j
      → run_invoice c j ≡ ok k
      → InvoiceReach i k

abbrev pub is_paid : InvoiceStatus → Bool
is_paid paid = true
is_paid s = false

abbrev pub is_voided : InvoiceStatus → Bool
is_voided voided = true
is_voided s = false

abbrev pub is_issued : InvoiceStatus → Bool
is_issued issued = true
is_issued s = false

-- The times and the reference fit the status.
pub record IsSettledOnce (i : Invoice) : Type 0 where
  pub paid_time : is_some i.paid_at ≡ is_paid i.status
  pub paid_ref : is_some i.payment_ref ≡ is_paid i.status
  pub voided_time : is_some i.voided_at ≡ is_voided i.status

run_invoice-IsSettledOnce :
    (c : InvoiceCommand) (i : Invoice) {j : Invoice}
    → run_invoice c i ≡ ok j
    → IsSettledOnce i
    → IsSettledOnce j
unfolding run_invoice mark_paid mark_voided
run_invoice-IsSettledOnce (pays ref now) i e v = ground arith
run_invoice-IsSettledOnce (voids reason now) i e v = ground arith

reach-IsSettledOnce : {i j : Invoice} → InvoiceReach i j → IsSettledOnce i → IsSettledOnce j
reach-IsSettledOnce here v = v
reach-IsSettledOnce (next c r e) v = run_invoice-IsSettledOnce c _ e (reach-IsSettledOnce r v)

-- After any successful calls on an invoice that was issued, it has a time of payment and a reference
-- just where it is paid, and a time of its voiding just where it is voided.
pub invoice_history-IsSettledOnce :
    (id subscription now : ℕ) (plan : PlanCode) (amount : Money) (span : Period) {i : Invoice}
    → InvoiceReach (issue id subscription plan amount span now) i
    → IsSettledOnce i
unfolding issue
invoice_history-IsSettledOnce id subscription now plan amount span r =
    reach-IsSettledOnce r (record { paid_time = refl; paid_ref = refl; voided_time = refl })

-- An invoice takes one call: where a call on it has succeeded, every later call throws.
pub settled_refuses :
    (first later : InvoiceCommand) (i j k : Invoice)
    → run_invoice first i ≡ ok j
    → run_invoice later j ≢ ok k
unfolding run_invoice mark_paid mark_voided
settled_refuses (pays r t) (pays r' t') i j k e e' = ground arith
settled_refuses (pays r t) (voids r' t') i j k e e' = ground arith
settled_refuses (voids r t) (pays r' t') i j k e e' = ground arith
settled_refuses (voids r t) (voids r' t') i j k e e' = ground arith

-- ===== src/Billing/Limits.antt =====
-- libs/backend/billing/domain/src: policies/limit.policy.ts, plan/plan.ts and
-- value-objects/plan-limits.ts. The share of a limit that is used is kept as a fraction; its test
-- against 0.8 is that of the fraction.
use detailing_studio.Prelude.{
  ℕ, ◌*◌, ◌≤◌, ◌<◌, ◌≡◌, refl, arith, Bool, true, false, ◌&&◌, ◌||◌, Option, none, some, List, [],
  ◌∷◌, map, String, ltb, leb, ◌==◌, any, All, ◌∙◌, if◌then◌else◌,
}
use detailing_studio.Shared.Money.{Money, rub}
use detailing_studio.Billing.Subscription.{PlanCode, starter, standard, pro}

pub data LimitField : Type 0 where
  branches masters appointments : LimitField

pub record PlanLimits : Type 0 where
  pub max_branches : Option ℕ
  pub max_masters : Option ℕ
  pub max_appointments_per_month : Option ℕ

unfoldable pub get_limit : LimitField → PlanLimits → Option ℕ
get_limit branches l = l.max_branches
get_limit masters l = l.max_masters
get_limit appointments l = l.max_appointments_per_month

pub record Plan : Type 0 where
  pub code : PlanCode
  pub name : String
  pub price_per_month : Money
  pub limits : PlanLimits

abbrev limits_of : Option ℕ → Option ℕ → Option ℕ → PlanLimits
limits_of b m a = record { max_branches = b; max_masters = m; max_appointments_per_month = a }

unfoldable pub by_code : PlanCode → Plan
by_code starter = record {
  code = starter;
  name = "Starter";
  price_per_month = rub 2990 0;
  limits = limits_of (some 1) (some 3) (some 200);
}
by_code standard = record {
  code = standard;
  name = "Standard";
  price_per_month = rub 5990 0;
  limits = limits_of (some 3) (some 10) (some 1000);
}
by_code pro = record {
  code = pro;
  name = "Pro";
  price_per_month = rub 11990 0;
  limits = limits_of none none none;
}

pub record LimitsUsage : Type 0 where
  pub branches_used : ℕ
  pub masters_used : ℕ
  pub appointments_this_month_used : ℕ

unfoldable pub usage_for_field : LimitField → LimitsUsage → ℕ
usage_for_field branches u = u.branches_used
usage_for_field masters u = u.masters_used
usage_for_field appointments u = u.appointments_this_month_used

pub data LimitItemStatus : Type 0 where
  fine warning exceeded : LimitItemStatus

abbrev pub severity : LimitItemStatus → ℕ
severity fine = 0
severity warning = 1
severity exceeded = 2

-- `used / limit`, `0` or `Infinity`.
pub data Percent : Type 0 where
  ratio : ℕ → ℕ → Percent
  infinite : Percent

abbrev pub percent_of : ℕ → ℕ → Percent
percent_of used limit =
    if limit == 0 then (if ltb 0 used then infinite else ratio 0 1) else ratio used limit

-- `percent >= 0.8`.
abbrev pub at_least_80 : Percent → Bool
at_least_80 infinite = true
at_least_80 (ratio n d) = leb (4 * d) (5 * n)

pub record LimitsUsageReportItem : Type 0 where
  pub field : LimitField
  pub used : ℕ
  pub limit : Option ℕ
  pub percent : Percent
  pub status : LimitItemStatus

abbrev pub status_of : ℕ → ℕ → LimitItemStatus
status_of used limit =
    if ltb limit used
    then exceeded
    else (if at_least_80 (percent_of used limit) && ltb used limit then warning else fine)

unfoldable pub evaluate_item : LimitField → ℕ → Option ℕ → LimitsUsageReportItem
evaluate_item f used none = record {
  field = f;
  used = used;
  limit = none;
  percent = ratio 0 1;
  status = fine;
}
evaluate_item f used (some limit) = record {
  field = f;
  used = used;
  limit = some limit;
  percent = percent_of used limit;
  status = status_of used limit;
}

pub record LimitsUsageReport : Type 0 where
  pub plan : PlanCode
  pub status : LimitItemStatus
  pub items : List LimitsUsageReportItem

-- The loop for the aggregate status.
unfoldable pub worst : LimitItemStatus → List LimitsUsageReportItem → LimitItemStatus
worst status [] = status
worst status (i ∷ is) =
    worst (if ltb (severity status) (severity i.status) then i.status else status) is

abbrev fields : List LimitField
fields = branches ∷ masters ∷ appointments ∷ []

unfoldable pub evaluate_limits : PlanCode → LimitsUsage → LimitsUsageReport
unfolding by_code get_limit usage_for_field evaluate_item worst
evaluate_limits code usage =
    let items =
      map (λ f. evaluate_item f (usage_for_field f usage) (get_limit f (by_code code).limits))
        fields in
    record { plan = code; status = worst fine items; items = items }

abbrev pub is_exceeded : LimitItemStatus → Bool
is_exceeded exceeded = true
is_exceeded s = false

worst_exceeded :
    (status : LimitItemStatus) (is : List LimitsUsageReportItem)
    → is_exceeded (worst status is) ≡ (is_exceeded status || any (λ i. is_exceeded i.status) is)
unfolding worst
worst_exceeded fine [] = refl
worst_exceeded warning [] = refl
worst_exceeded exceeded [] = refl
worst_exceeded status (i ∷ is) =
    worst_exceeded (if ltb (severity status) (severity i.status) then i.status else status) is
    ∙ step status i.status (any (λ x. is_exceeded x.status) is)
  where
    step :
        (s t : LimitItemStatus) (c : Bool)
        → (is_exceeded (if ltb (severity s) (severity t) then t else s) || c)
          ≡ (is_exceeded s || (if is_exceeded t then true else c))
    step s t c = ground arith

worst_above :
    (status : LimitItemStatus) (is : List LimitsUsageReportItem)
    → (severity status ≤ severity (worst status is))
      × All (λ i. severity i.status ≤ severity (worst status is)) is
unfolding worst
worst_above status [] = (omega arith, tt)
worst_above status (i ∷ is) =
    let next = if ltb (severity status) (severity i.status) then i.status else status in
    let (above, rest) = worst_above next is in
    let here : (severity status ≤ severity next) × (severity i.status ≤ severity next) =
      ground arith in
    (omega (arith, above, here.0), (omega (arith, above, here.1), rest))

-- More is used than the limit allows.
abbrev pub over : Option ℕ → ℕ → Bool
over none used = false
over (some limit) used = ltb limit used

item_exceeded :
    (f : LimitField) (used : ℕ) (limit : Option ℕ)
    → is_exceeded (evaluate_item f used limit).status ≡ over limit used
unfolding evaluate_item
item_exceeded f used none = refl
item_exceeded f used (some limit) = ground arith

-- The report says that limits are exceeded just where the branches, the masters or the appointments
-- of the month are more than the plan's limit for them, and the status of no item is worse than that
-- of the report.
pub evaluate_limits_lem :
    (code : PlanCode) (u : LimitsUsage)
    → (is_exceeded (evaluate_limits code u).status ≡ (
        over (by_code code).limits.max_branches u.branches_used
        || (over (by_code code).limits.max_masters u.masters_used
            || over
                (by_code code).limits.max_appointments_per_month
                u.appointments_this_month_used)))
      × All
          (λ i. severity i.status ≤ severity (evaluate_limits code u).status)
          (evaluate_limits code u).items
unfolding evaluate_limits get_limit usage_for_field
evaluate_limits_lem code u =
    let items = (evaluate_limits code u).items in
    let plan = (by_code code).limits in
    (
      worst_exceeded fine items
          ∙ rw
              (
                item_exceeded branches u.branches_used plan.max_branches,
                item_exceeded masters u.masters_used plan.max_masters,
                item_exceeded appointments u.appointments_this_month_used
                    plan.max_appointments_per_month,
              )
              (three (over plan.max_branches u.branches_used) (over plan.max_masters u.masters_used)
                (over plan.max_appointments_per_month u.appointments_this_month_used)),
      (worst_above fine items).1,
    )
  where
    three :
        (a b c : Bool)
        → (if a then true else if b then true else if c then true else false) ≡ (a || (b || c))
    three true b c = refl
    three false true c = refl
    three false false true = refl
    three false false false = refl

-- With a limit above 0, use that reaches the limit is reported as fine, while use below it from
-- four fifths on gives a warning.
pub limit_reached_fine :
    (f : LimitField) (used limit : ℕ)
    → 0 < limit
    → used < limit
    → 4 * limit ≤ 5 * used
    → ((evaluate_item f used (some limit)).status ≡ warning)
      × ((evaluate_item f limit (some limit)).status ≡ fine)
unfolding evaluate_item
limit_reached_fine f used limit pos below near = ground arith

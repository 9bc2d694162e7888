-- ===== src/Inventory/Adjustment/Lifecycle.antt =====
-- The life of an adjustment, and the approval that the stocks are changed by.
use detailing_studio.Prelude.{
  ℕ, ◌≡◌, arith, Bool, true, false, Option, none, some, List, [], ◌∷◌, String, if◌then◌else◌,
  Result, ok, sum_by, sum_by-append, Bool-cases, inl, inr,
}
use detailing_studio.Shared.Money.{Money}
use detailing_studio.Inventory.Adjustment.{
  Adjustment, AdjustmentLine, AdjustmentEvent, AdjustmentError, AdjustmentStatus, approved,
  adjustment_approved, adjustment_rejected, auto_approved, create, approve, reject,
}

pub data Command : Type 0 where
  approves : ℕ → ℕ → Command
  rejects : ℕ → ℕ → String → Command

unfoldable pub run_command : Command → Adjustment → Result AdjustmentError Adjustment
run_command (approves by at) a = approve by at a
run_command (rejects by at reason) a = reject by at reason a

pub data Reach (a : Adjustment) : Adjustment → Type 0 where
  here : Reach a a
  next : {b c : Adjustment} (k : Command) → Reach a b → run_command k b ≡ ok c → Reach a c

abbrev pub is_approved : AdjustmentStatus → Bool
is_approved approved = true
is_approved s = false

abbrev is_given : Option ℕ → Bool
is_given none = false
is_given (some n) = true

-- How many events tell the handlers to change the stocks.
abbrev is_approval : AdjustmentEvent → Bool
is_approval (adjustment_approved id branch lines reason by at) = true
is_approval e = false

abbrev pub approvals : List AdjustmentEvent → ℕ
approvals = sum_by (λ e. if is_approval e then 1 else 0)

-- The stocks are told once where the adjustment is approved, and never else; it has an author and a
-- time of the approval just then.
pub record IsValid (a : Adjustment) : Type 0 where
  pub told_once : approvals a.events ≡ (if is_approved a.status then 1 else 0)
  pub author : is_given a.approved_by ≡ is_approved a.status
  pub time : is_given a.approved_at ≡ is_approved a.status

run_command-IsValid :
    (k : Command) (a : Adjustment) {b : Adjustment} → run_command k a ≡ ok b → IsValid a → IsValid b
unfolding run_command approve reject
run_command-IsValid (approves by at) a e v = ground (
  arith,
  sum_by-append (λ x. if is_approval x then 1 else 0) a.events
      (adjustment_approved a.id a.branch_id a.lines a.reason by at ∷ []),
)
run_command-IsValid (rejects by at reason) a e v = ground (
  arith,
  sum_by-append (λ x. if is_approval x then 1 else 0) a.events
      (adjustment_rejected a.id by reason at ∷ []),
)

past-IsValid : {a b : Adjustment} → Reach a b → IsValid a → IsValid b
past-IsValid here v = v
past-IsValid (next k past e) v = run_command-IsValid k _ e (past-IsValid past v)

created-IsValid :
    (id branch : ℕ) (reason : String) (lines : List AdjustmentLine) (threshold : Money) (by at : ℕ)
    {a : Adjustment}
    → create id branch reason lines threshold by at ≡ ok a
    → IsValid a × (is_approved a.status ≡ auto_approved lines threshold)
unfolding create
created-IsValid id branch reason lines threshold by at e =
    elim (Bool-cases (auto_approved lines threshold)) [
      | inl small ↦ let e' = rw small at e in ground arith
      | inr large ↦ let e' = rw large at e in ground arith
    ]

-- After any successful calls on an adjustment that was created, the stocks are told to change once where
-- it is approved, and never else, and it has an author and a time of the approval just then.
pub adjustment_history-IsValid :
    (id branch : ℕ) (reason : String) (lines : List AdjustmentLine) (threshold : Money) (by at : ℕ)
    {a b : Adjustment}
    → create id branch reason lines threshold by at ≡ ok a
    → Reach a b
    → IsValid b
adjustment_history-IsValid id branch reason lines threshold by at made past =
    past-IsValid past (created-IsValid id branch reason lines threshold by at made).0

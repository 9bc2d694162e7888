-- ===== src/Inventory/Adjustment.antt =====
-- libs/backend/inventory/domain/src/adjustment: adjustment.aggregate.ts, adjustment-line.ts,
-- adjustment-status.ts, adjustment.events.ts and adjustment.errors.ts. An amount counts 1024ths.
pub mod Lifecycle
mod Tests
use detailing_studio.Prelude.{
  ℕ, zero, suc, ◌+◌, ◌*◌, ◌/◌, Bool, true, false, not, Option, none, some, List, [], ◌∷◌, ◌++◌,
  String, ltb, ◌==◌, if◌then◌else◌, Result, ok, err, throw_if, ◌>>=◌, ◌>>◌,
}
use detailing_studio.Prelude.Int.{ℤ, pos, negsuc, ◌+ℤ◌, abs}
use detailing_studio.Shared.Money.{Money}
use detailing_studio.Inventory.Stock.Movement.{SignedQuantity}

pub data AdjustmentStatus : Type 0 where
  pending approved rejected : AdjustmentStatus

pub record AdjustmentLine : Type 0 where
  pub sku_id : ℕ
  pub delta : SignedQuantity
  pub snapshot_unit_cost : Money

pub data AdjustmentError : Type 0 where
  empty_adjustment : AdjustmentError
  adjustment_already_decided : ℕ → AdjustmentError

-- The approval carries the lines, of which the handlers read the SKU and the change.
pub data AdjustmentEvent : Type 0 where
  adjustment_created : ℕ → AdjustmentStatus → ℕ → AdjustmentEvent
  adjustment_approved : ℕ → ℕ → List AdjustmentLine → String → ℕ → ℕ → AdjustmentEvent
  adjustment_rejected : ℕ → ℕ → String → ℕ → AdjustmentEvent

pub record Adjustment : Type 0 where
  pub id : ℕ
  pub branch_id : ℕ
  pub status : AdjustmentStatus
  pub reason : String
  pub lines : List AdjustmentLine
  pub total_amount_cents : ℤ
  pub created_by : ℕ
  pub approved_by : Option ℕ
  pub created_at : ℕ
  pub approved_at : Option ℕ
  pub events : List AdjustmentEvent

abbrev add_event : AdjustmentEvent → Adjustment → Adjustment
add_event e a = record a { events = a.events ++ e ∷ [] }

abbrev minus : ℕ → ℤ
minus zero = pos 0
minus (suc n) = negsuc n

-- `Math.round` of an amount times a price: a half is rounded up, also below 0.
unfoldable pub line_cents : ℤ → ℕ → ℤ
line_cents (pos n) cents = pos ((n * cents + 512) / 1024)
line_cents (negsuc n) cents = minus ((suc n * cents + 511) / 1024)

unfoldable pub compute_total_cents : List AdjustmentLine → ℤ
compute_total_cents [] = pos 0
compute_total_cents (l ∷ ls) =
    line_cents l.delta.amount l.snapshot_unit_cost.cents +ℤ compute_total_cents ls

abbrev no_lines : List AdjustmentLine → Bool
no_lines [] = true
no_lines (l ∷ ls) = false

abbrev pub auto_approved : List AdjustmentLine → Money → Bool
auto_approved lines threshold = ltb (abs (compute_total_cents lines)) threshold.cents

abbrev draft_of : ℕ → ℕ → String → List AdjustmentLine → ℕ → ℕ → Adjustment
draft_of id branch reason lines created_by created_at = record {
  id = id;
  branch_id = branch;
  status = pending;
  reason = reason;
  lines = lines;
  total_amount_cents = compute_total_cents lines;
  created_by = created_by;
  approved_by = none;
  created_at = created_at;
  approved_at = none;
  events = [];
}

unfoldable pub create :
    ℕ → ℕ → String → List AdjustmentLine → Money → ℕ → ℕ → Result AdjustmentError Adjustment
create id branch reason lines threshold created_by created_at = do
  throw_if (no_lines lines) empty_adjustment
  (if auto_approved lines threshold
      then ok (
          add_event (adjustment_approved id branch lines reason created_by created_at) (
            add_event (adjustment_created id approved created_at)
              (record (draft_of id branch reason lines created_by created_at) {
                status = approved;
                approved_by = some created_by;
                approved_at = some created_at;
              })))
      else ok (
          add_event (adjustment_created id pending created_at)
            (draft_of id branch reason lines created_by created_at)))

abbrev pub is_pending : AdjustmentStatus → Bool
is_pending pending = true
is_pending s = false

abbrev ensure_pending : Adjustment → Result AdjustmentError (Unit {0})
ensure_pending a = throw_if (not (is_pending a.status)) (adjustment_already_decided a.id)

unfoldable pub approve : ℕ → ℕ → Adjustment → Result AdjustmentError Adjustment
approve by at a = do
  ensure_pending a
  ok (
      add_event (adjustment_approved a.id a.branch_id a.lines a.reason by at)
        (record a { status = approved; approved_by = some by; approved_at = some at }))

unfoldable pub reject : ℕ → ℕ → String → Adjustment → Result AdjustmentError Adjustment
reject by at reason a = do
  ensure_pending a
  ok (add_event (adjustment_rejected a.id by reason at) (record a { status = rejected }))

-- ===== src/Inventory/StockTaking.antt =====
-- libs/backend/inventory/domain/src/stock-taking: stock-taking.aggregate.ts, stock-taking-line.ts,
-- stock-taking.events.ts and stock-taking.errors.ts.
pub mod Laws
mod Units
mod Tests
use detailing_studio.Prelude.{
  ℕ, suc, Bool, true, false, not, Option, none, some, List, [], ◌∷◌, ◌++◌, map, ◌==◌, any,
  if◌then◌else◌, Result, ok, err, ◌>>=◌, ◌>>◌, throw_if,
}
use detailing_studio.Prelude.Int.{ℤ, pos, negsuc, sub_ℕ}
use detailing_studio.Shared.Quantity.{Quantity}
use detailing_studio.Inventory.Stock.Movement.{SignedQuantity}

pub data StockTakingStatus : Type 0 where
  started posted cancelled : StockTakingStatus

pub data StockTakingError : Type 0 where
  stock_taking_already_posted stock_taking_not_started sku_not_found : ℕ → StockTakingError

pub record StockTakingLine : Type 0 where
  pub sku_id : ℕ
  pub expected_quantity : Quantity
  pub actual_quantity : Option Quantity

-- `computeDelta`: it reads the unit of the expected quantity only.
abbrev pub delta_of : Quantity → Option Quantity → Option SignedQuantity
delta_of expected none = none
delta_of expected (some actual) =
    some (record { amount = sub_ℕ actual.amount expected.amount; unit = expected.unit })

unfoldable pub compute_delta : StockTakingLine → Option SignedQuantity
compute_delta l = delta_of l.expected_quantity l.actual_quantity

pub record StockTakingDelta : Type 0 where
  pub sku_id : ℕ
  pub delta : SignedQuantity

pub data StockTakingEvent : Type 0 where
  stock_taking_started : ℕ → ℕ → ℕ → StockTakingEvent
  stock_taking_posted : ℕ → ℕ → List StockTakingDelta → ℕ → ℕ → StockTakingEvent
  stock_taking_cancelled : ℕ → ℕ → StockTakingEvent

pub record StockTaking : Type 0 where
  pub id : ℕ
  pub branch_id : ℕ
  pub status : StockTakingStatus
  pub lines : List StockTakingLine
  pub created_by : ℕ
  pub started_at : ℕ
  pub completed_at : Option ℕ
  pub events : List StockTakingEvent

abbrev add_event : StockTakingEvent → StockTaking → StockTaking
add_event e s = record s { events = s.events ++ e ∷ [] }

-- `snapshotLines` is given as pairs.
unfoldable pub start : ℕ → ℕ → ℕ → ℕ → List (ℕ × Quantity) → StockTaking
start id branch_id created_by started_at snapshot_lines = record {
  id = id;
  branch_id = branch_id;
  status = started;
  lines =
      map (λ l. record { sku_id = l.0; expected_quantity = l.1; actual_quantity = none })
        snapshot_lines;
  created_by = created_by;
  started_at = started_at;
  completed_at = none;
  events = stock_taking_started id branch_id started_at ∷ [];
}

abbrev started_or : StockTakingStatus → ℕ → Result StockTakingError (Unit {0})
started_or posted id = err (stock_taking_already_posted id)
started_or cancelled id = err (stock_taking_not_started id)
started_or started id = ok tt

abbrev ensure_started : StockTaking → Result StockTakingError (Unit {0})
ensure_started s = started_or s.status s.id

-- `find`, and `recordActual` on the line that it returns.
unfoldable pub record_actual : ℕ → Quantity → List StockTakingLine → List StockTakingLine
record_actual sku actual [] = []
record_actual sku actual (l ∷ ls) =
    if l.sku_id == sku
    then record l { actual_quantity = some actual } ∷ ls
    else l ∷ record_actual sku actual ls

unfoldable pub record_measurement : ℕ → Quantity → StockTaking → Result StockTakingError StockTaking
record_measurement sku actual s = do
  ensure_started s
  throw_if (not (any (λ l. l.sku_id == sku) s.lines)) (sku_not_found sku)
  ok (record s { lines = record_actual sku actual s.lines })

abbrev pub is_zero : ℤ → Bool
is_zero (pos n) = n == 0
is_zero (negsuc n) = false

abbrev pub add_delta : ℕ → Option SignedQuantity → List StockTakingDelta → List StockTakingDelta
add_delta sku none ds = ds
add_delta sku (some d) ds = if is_zero d.amount then ds else record { sku_id = sku; delta = d } ∷ ds

-- The loop of `post`.
unfoldable pub deltas_of : List StockTakingLine → List StockTakingDelta
unfolding compute_delta
deltas_of [] = []
deltas_of (l ∷ ls) = add_delta l.sku_id (compute_delta l) (deltas_of ls)

unfoldable pub post : ℕ → ℕ → StockTaking → Result StockTakingError StockTaking
unfolding deltas_of
post by at s = do
  ensure_started s
  ok (
      add_event (stock_taking_posted s.id s.branch_id (deltas_of s.lines) by at)
        (record s { status = posted; completed_at = some at }))

unfoldable pub cancel : ℕ → StockTaking → Result StockTakingError StockTaking
cancel at s = do
  ensure_started s
  ok (
      add_event (stock_taking_cancelled s.id at)
        (record s { status = cancelled; completed_at = some at }))

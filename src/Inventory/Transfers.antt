-- ===== src/Inventory/Transfers.antt =====
-- libs/backend/inventory: transfer.aggregate.ts of the domain, apply-transfer.saga.ts of the
-- application, and the repository of the stocks (inv-stock.repository.ts), which the saga calls.
-- A failed call of a stock ends the saga where it stands: what was saved before stays saved. The
-- ids that `idGen` hands out for the batches of a line are an argument. The outbox takes every event; the
-- unique id of its rows is left out.
pub mod Rows
pub mod Laws
mod Tests
use detailing_studio.Prelude.{
  ℕ, suc, Bool, true, false, not, ◌&&◌, Option, none, some, List, [], ◌∷◌, ◌++◌, ◌==◌,
  if◌then◌else◌, any, Result, ok, err, throw_if, ◌>>=◌, ◌>>◌,
}
use detailing_studio.Shared.Quantity.{UnitOfMeasure, Quantity, of}
use detailing_studio.Inventory.Batch.{StockError}
use detailing_studio.Inventory.Selection.{BatchSelector}
use detailing_studio.Inventory.Stock.Events.{StockEvent}
use detailing_studio.Inventory.Stock.State.{Stock, create_empty}
use detailing_studio.Inventory.Stock.Movement.{TransferDetails, transfer_out, transfer_in}

pub data TransferStatus : Type 0 where
  draft posted cancelled : TransferStatus

pub record TransferLine : Type 0 where
  pub sku_id : ℕ
  pub quantity : Quantity

pub data TransferError : Type 0 where
  same_branch_transfer empty_transfer : TransferError
  transfer_already_posted transfer_not_draft : ℕ → TransferError

pub data TransferEvent : Type 0 where
  transfer_created transfer_cancelled : ℕ → ℕ → TransferEvent
  transfer_posted : ℕ → ℕ → ℕ → List TransferLine → ℕ → ℕ → TransferEvent

pub record Transfer : Type 0 where
  pub id : ℕ
  pub from_branch_id : ℕ
  pub to_branch_id : ℕ
  pub status : TransferStatus
  pub lines : List TransferLine
  pub created_by : ℕ
  pub created_at : ℕ
  pub posted_by : Option ℕ
  pub posted_at : Option ℕ
  pub events : List TransferEvent

abbrev add_event : TransferEvent → Transfer → Transfer
add_event e t = record t { events = t.events ++ e ∷ [] }

abbrev no_lines : List TransferLine → Bool
no_lines [] = true
no_lines (l ∷ ls) = false

unfoldable pub create : ℕ → ℕ → ℕ → List TransferLine → ℕ → ℕ → Result TransferError Transfer
create id from_branch to_branch lines created_by created_at = do
  throw_if (from_branch == to_branch) same_branch_transfer
  throw_if (no_lines lines) empty_transfer
  ok (
      add_event (transfer_created id created_at) (record {
        id = id;
        from_branch_id = from_branch;
        to_branch_id = to_branch;
        status = draft;
        lines = lines;
        created_by = created_by;
        created_at = created_at;
        posted_by = none;
        posted_at = none;
        events = [];
      }))

abbrev pub is_posted : TransferStatus → Bool
is_posted posted = true
is_posted s = false

abbrev pub is_draft : TransferStatus → Bool
is_draft draft = true
is_draft s = false

unfoldable pub post : ℕ → ℕ → Transfer → Result TransferError Transfer
post by at t = do
  throw_if (is_posted t.status) (transfer_already_posted t.id)
  throw_if (not (is_draft t.status)) (transfer_not_draft t.id)
  ok (
      add_event (transfer_posted t.id t.from_branch_id t.to_branch_id t.lines by at)
        (record t { status = posted; posted_by = some by; posted_at = some at }))

unfoldable pub cancel : ℕ → Transfer → Result TransferError Transfer
cancel at t = do
  throw_if (not (is_draft t.status)) (transfer_not_draft t.id)
  ok (add_event (transfer_cancelled t.id at) (record t { status = cancelled }))

-- The rows of the stocks, the outbox, and the transfers that are marked as processed.
pub record Warehouse : Type 0 where
  pub stocks : List Stock
  pub outbox : List StockEvent
  pub processed : List ℕ

abbrev pub at_key : ℕ → ℕ → Stock → Bool
at_key sku branch s = s.sku_id == sku && s.branch_id == branch

unfoldable pub find_by_composite_id : ℕ → ℕ → List Stock → Option Stock
find_by_composite_id sku branch [] = none
find_by_composite_id sku branch (s ∷ ss) =
    if at_key sku branch s then some s else find_by_composite_id sku branch ss

abbrev or_empty : Option Stock → ℕ → ℕ → UnitOfMeasure → ℕ → Stock
or_empty none sku branch unit now = create_empty sku branch unit (of 0 unit) now
or_empty (some s) sku branch unit now = s

-- `findOrCreate`, with the reorder level of 0 that the saga passes.
abbrev pub find_or_create : ℕ → ℕ → UnitOfMeasure → ℕ → List Stock → Stock
find_or_create sku branch unit now ss =
    or_empty (find_by_composite_id sku branch ss) sku branch unit now

unfoldable pub put_stock : Stock → List Stock → List Stock
put_stock s [] = s ∷ []
put_stock s (x ∷ xs) = if at_key s.sku_id s.branch_id x then s ∷ xs else x ∷ put_stock s xs

-- `save`, which moves the events to the outbox.
abbrev pub save_stock : Stock → Warehouse → Warehouse
save_stock s w = record w {
  stocks = put_stock (record s { events = [] }) w.stocks;
  outbox = w.outbox ++ s.events;
}

module _ (select : BatchSelector) (from_branch to_branch at now : ℕ) where
  abbrev save_both :
      Result StockError Stock → Stock → Warehouse → Warehouse × Result StockError (Unit {0})
  save_both (err e) from_stock w = (w, err e)
  save_both (ok to_stock) from_stock w = (save_stock to_stock (save_stock from_stock w), ok tt)

  -- The second half of the loop's body, after `transferOut`.
  unfoldable pub move_in :
      Result StockError (Stock × TransferDetails)
      → TransferLine
      → (ℕ → ℕ)
      → Warehouse
      → Warehouse × Result StockError (Unit {0})
  move_in (err e) line fresh w = (w, err e)
  move_in (ok (from_stock, details)) line fresh w =
      save_both
        (transfer_in details at fresh
          (find_or_create line.sku_id to_branch line.quantity.unit now w.stocks))
        from_stock w

  -- The body of the loop.
  unfoldable pub apply_line :
      TransferLine → (ℕ → ℕ) → Warehouse → Warehouse × Result StockError (Unit {0})
  apply_line line fresh w =
      move_in
        (transfer_out line.quantity to_branch select at
          (find_or_create line.sku_id from_branch line.quantity.unit now w.stocks))
        line fresh w

  abbrev go_on :
      Warehouse × Result StockError (Unit {0})
      → (Warehouse → Warehouse × Result StockError (Unit {0}))
      → Warehouse × Result StockError (Unit {0})
  go_on (w, err e) rest = (w, err e)
  go_on (w, ok u) rest = rest w

  unfoldable pub apply_lines :
      (ℕ → ℕ → ℕ) → ℕ → List TransferLine → Warehouse → Warehouse × Result StockError (Unit {0})
  apply_lines id_gen k [] w = (w, ok tt)
  apply_lines id_gen k (line ∷ lines) w =
      let rest = apply_lines id_gen (suc k) lines in go_on (apply_line line (id_gen k) w) rest

  abbrev mark :
      ℕ → Warehouse × Result StockError (Unit {0}) → Warehouse × Result StockError (Unit {0})
  mark id (w, err e) = (w, err e)
  mark id (w, ok u) = (record w { processed = id ∷ w.processed }, ok tt)

  -- `handle`, for the posted transfer of the id.
  unfoldable pub apply_transfer :
      (ℕ → ℕ → ℕ) → ℕ → List TransferLine → Warehouse → Warehouse × Result StockError (Unit {0})
  apply_transfer id_gen id lines w =
      if any (λ k. k == id) w.processed then (w, ok tt) else mark id (apply_lines id_gen 0 lines w)

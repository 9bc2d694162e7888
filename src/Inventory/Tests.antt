-- ===== src/Inventory/Tests.antt =====
-- The theorems on the stock at a concrete one, and runs of its methods.
use mathlib.Core.List.{Perm}
use detailing_studio.Prelude.{
  ℕ, ◌+◌, ◌*◌, ◌-◌, ◌≤◌, ◌<◌, ◌≡◌, refl, true, not, ◌&&◌, arith, List, [], ◌∷◌, ◌++◌, map, none,
  some, ok, filter, IsSorted, if◌then◌else◌, ◌==◌, leb, ltb,
}
use detailing_studio.Prelude.Int.{negsuc}
use detailing_studio.Shared.Quantity.{ml, l, Quantity, unit_eq}
use detailing_studio.Shared.Quantity
use detailing_studio.Inventory.Batch.{Batch, receipt, total}
use detailing_studio.Inventory.Selection.{fefo, fifo, allocate, allocated, select_for_consumption}
use detailing_studio.Inventory.Selection.Laws.{
  selection_order, can_be_taken, in_turn, selection_order-IsSorted, whole, select_empties_first,
}
use detailing_studio.Inventory.Stock.Events.{StockEvent, manual, stock_consumed}
use detailing_studio.Inventory.Stock.State.{
  Stock, stock_id, ReceiveBatchDetails, create_empty, receive,
}
use detailing_studio.Inventory.Stock.Movement.{
  WriteOffResult, SignedQuantity, TransferDetails, consume, transfer_out, transfer_in,
}
use detailing_studio.Inventory.Stock.Allocation.{value, Positive}
use detailing_studio.Inventory.Stock.Conservation.{
  IsValid, takeable, consume_writes_off, consume_shortfall,
}
use detailing_studio.Inventory.Stock.Lots.{held}
use detailing_studio.Inventory.Stock.Transfer.{transfer_conserves}
use detailing_studio.Inventory.Stock.Receiving.{receive_adds, receive_average}
use detailing_studio.Inventory.Stock.Alerts.{consume_alerts, low_alerts, out_alerts}
use detailing_studio.Inventory.Stock.Invariant.{here, next, receives, history-IsValid}

abbrev of_ml : ℕ → Quantity
of_ml n = Quantity.of n ml

abbrev batch : ℕ → ℕ → ℕ → ℕ → Batch
batch id n cents expiry = record {
  id = id;
  supplier_id = none;
  source_type = receipt;
  source_doc_id = "R1";
  initial_quantity = of_ml n;
  remaining_quantity = of_ml n;
  unit_cost = record { cents = cents };
  expires_at = some expiry;
  received_at = id;
}

-- Batch 1 expires last.
abbrev shelf : Stock
shelf = record {
  sku_id = 1;
  branch_id = 1;
  base_unit = ml;
  batches = batch 1 5 100 90 ∷ batch 2 4 200 50 ∷ batch 3 3 300 70 ∷ [];
  reorder_level = of_ml 6;
  average_cost = record { cents = 180 };
  events = [];
}

abbrev other_shelf : Stock
other_shelf = record shelf { branch_id = 2; batches = [] }

shelf-IsValid : IsValid shelf
unfolding unit_eq
shelf-IsValid = record { distinct = omega arith; measured = (refl, (refl, (refl, tt))) }

same_unit : unit_eq ml ml ≡ true
unfolding unit_eq
same_unit = refl

-- FEFO takes batch 2 whole, then batch 3 whole, then one from batch 1.
select_run :
    map {B = ℕ × ℕ}
      (λ a. (a.batch_id, a.quantity.amount))
      (select_for_consumption fefo shelf.batches (of_ml 8) 10)
    ≡ (2, 4) ∷ (3, 3) ∷ (1, 1) ∷ []
unfolding select_for_consumption
select_run = refl

-- At time 60 batch 2 has expired: only 8 of the 12 can be taken.
select_expired_run : allocated (select_for_consumption fifo shelf.batches (of_ml 12) 60) ≡ 8
unfolding select_for_consumption
select_expired_run = refl

selection_order-IsSorted_example :
    Perm (selection_order fefo shelf.batches 10) (filter (can_be_taken 10) shelf.batches)
    × IsSorted (in_turn fefo) (selection_order fefo shelf.batches 10)
selection_order-IsSorted_example = selection_order-IsSorted fefo shelf.batches 10

select_empties_first_example :
    select_for_consumption fefo shelf.batches (of_ml 8) 10
    ≡ map (whole ml) (batch 2 4 200 50 ∷ batch 3 3 300 70 ∷ [])
      ++ allocate (of_ml 8) (8 - 7) (batch 1 5 100 90 ∷ [])
unfolding selection_order
select_empties_first_example =
    select_empties_first fefo shelf.batches (of_ml 8) 10 (batch 2 4 200 50 ∷ batch 3 3 300 70 ∷ [])
      (batch 1 5 100 90 ∷ []) refl (omega arith)

consume_writes_off_example :
    (s' : Stock) × (w : WriteOffResult) × (consume
        (of_ml 8)
        (manual "wash")
        (select_for_consumption fefo)
        10
        shelf
      ≡ ok (s', w))
    × (allocated w.allocations ≡ takeable (of_ml 8) 10 shelf)
    × (total s'.batches + takeable (of_ml 8) 10 shelf ≡ total shelf.batches)
    × IsValid s'
    × Positive s'.batches
consume_writes_off_example =
    consume_writes_off fefo (of_ml 8) (manual "wash") 10 shelf shelf-IsValid same_unit (omega arith)

consume_shortfall_example :
    (s' : Stock) × (w : WriteOffResult) × (more : List StockEvent) × (consume
        (of_ml 10)
        (manual "wash")
        (select_for_consumption fefo)
        60
        shelf
      ≡ ok (s', w))
    × (s'.events
        ≡ (shelf.events
            ++ stock_consumed
                (stock_id shelf)
                (of_ml 10)
                (manual "wash")
                w.allocations
                w.total_cost
                60
              ∷ [])
          ++ more)
    × (total shelf.batches < total s'.batches + 10)
consume_shortfall_example =
    consume_shortfall fefo (of_ml 10) (manual "wash") 60 shelf shelf-IsValid same_unit (omega arith)
      (omega arith)

transfer_conserves_example :
    (s' t' : Stock) × (d : TransferDetails) × (transfer_out
        (of_ml 8)
        2
        (select_for_consumption fefo)
        10
        shelf
      ≡ ok (s', d))
    × (transfer_in d 10 (λ k. 7 + k) other_shelf ≡ ok t')
    × (total s'.batches + total t'.batches ≡ total shelf.batches + total other_shelf.batches)
    × (value s'.batches + value t'.batches ≡ value shelf.batches + value other_shelf.batches)
    × (held (some 50) 200 s'.batches + held (some 50) 200 t'.batches
        ≡ held (some 50) 200 shelf.batches + held (some 50) 200 other_shelf.batches)
transfer_conserves_example =
    transfer_conserves fefo (of_ml 8) 2 10 (λ k. 7 + k) shelf other_shelf (some 50) 200
      shelf-IsValid same_unit same_unit (omega arith)

abbrev delivery : ReceiveBatchDetails
delivery = record {
  batch_id = 9;
  supplier_id = some 4;
  source_type = receipt;
  source_doc_id = "R2";
  quantity = of_ml 8;
  unit_cost = record { cents = 330 };
  expires_at = none;
  received_at = 20;
}

receive_adds_example :
    (s' : Stock) × (receive delivery shelf ≡ ok s')
    × (total s'.batches ≡ total shelf.batches + 8)
    × IsValid s'
receive_adds_example = receive_adds delivery shelf shelf-IsValid same_unit (omega arith)

receive_average_example :
    (s' : Stock) × (receive delivery shelf ≡ ok s')
    × (180 ≤ s'.average_cost.cents)
    × (s'.average_cost.cents ≤ 330)
    × (2 * (s'.average_cost.cents * 20) ≤ 2 * 4800 + 20)
    × (2 * 4800 + 20 < 2 * (s'.average_cost.cents * 20) + 2 * 20)
receive_average_example =
    receive_average delivery shelf 180 330 same_unit (omega arith) (omega arith) (omega arith)
      (omega arith) (omega arith)

abbrev correction : SignedQuantity
correction = record { amount = negsuc 4; unit = ml }

-- Taking 8 of 12 leaves 4, below the reorder level of 6.
abbrev half_empty : Stock
half_empty = consume_writes_off_example.0

consume_alerts_example :
    (out_alerts half_empty.events ≡ 0 + (if total half_empty.batches == 0 then 1 else 0))
    × (low_alerts half_empty.events
        ≡ 0
          + (if not (total half_empty.batches == 0)
                && (leb (total half_empty.batches) 6 && ltb 6 12)
              then 1
              else 0))
consume_alerts_example =
    consume_alerts (of_ml 8) (manual "wash") (select_for_consumption fefo) 10 shelf half_empty
      consume_writes_off_example.1 consume_writes_off_example.2

abbrev new_shelf : Stock
new_shelf = create_empty 1 1 ml (of_ml 6) 0

new_shelf-IsValid : IsValid new_shelf
unfolding create_empty
new_shelf-IsValid = record { distinct = tt; measured = tt }

same_base_unit : unit_eq ml new_shelf.base_unit ≡ true
unfolding create_empty unit_eq
same_base_unit = refl

first_delivery :
    (s' : Stock) × (receive delivery new_shelf ≡ ok s')
    × (total s'.batches ≡ total new_shelf.batches + 8)
    × IsValid s'
unfolding create_empty
first_delivery = receive_adds delivery new_shelf new_shelf-IsValid same_base_unit tt

history-IsValid_example : IsValid first_delivery.0
unfolding create_empty
history-IsValid_example =
    history-IsValid 1 1 ml (of_ml 6) 0 (next here (receives delivery tt first_delivery.1))

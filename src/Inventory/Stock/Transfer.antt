-- ===== src/Inventory/Stock/Transfer.antt =====
-- What a transfer between two branches preserves (docs/adr, ADR-0010: `totalSystemQuantity`).
use mathlib.Core.List.{append-nil, append_assoc}
use detailing_studio.Prelude.{
  ℕ, suc, ◌+◌, ◌-◌, ◌*◌, ◌≤◌, ◌≡◌, refl, ap, ◌∙◌, true, false, min, arith, Option, none,
  if◌then◌else◌, List, [], ◌∷◌, ◌++◌, map, ok, ltb, sum_by-append, All,
}
use detailing_studio.Shared.Quantity.{UnitOfMeasure, unit_eq, Quantity}
use detailing_studio.Inventory.Batch.{Batch, total, remaining, transfer}
use detailing_studio.Inventory.Selection.{
  BatchSelectionStrategy, BatchAllocation, select_for_consumption, allocated, allocate,
}
use detailing_studio.Inventory.Selection.Laws.{allocated-select_for_consumption}
use detailing_studio.Inventory.Stock.Events.{stock_transferred_out, stock_transferred_in}
use detailing_studio.Inventory.Stock.State.{Stock, add_event, stock_id, remove_depleted}
use detailing_studio.Inventory.Stock.Movement.{
  TransferBatchDetail, TransferDetails, transfer_detail, transfer_out, receive_transfer,
  transfer_in,
}
use detailing_studio.Inventory.Stock.Allocation.{
  value, allocated_value, value-lower_all, value-remove_depleted,
}
use detailing_studio.Inventory.Stock.Lots.{
  held, handed, held-lower_all, held-remove_depleted, details-lower_all, same_lot,
}
use detailing_studio.Inventory.Stock.Conservation.{
  IsValid, takeable, left_over, selected-Fits, selected-DistinctAllocations, decrement_all-selected,
  total-left_over,
}

module _ (strategy : BatchSelectionStrategy) (amount : Quantity) (target at : ℕ) (s : Stock) where
  -- The stock after the transfer out, and what it hands over.
  abbrev pub sent : Stock
  sent =
      add_event (stock_transferred_out (stock_id s) amount target at)
        (record s { batches = remove_depleted (left_over strategy amount at s) })

  abbrev pub handed_over : TransferDetails
  handed_over = record {
    allocations =
        map (transfer_detail s.batches) (select_for_consumption strategy s.batches amount at);
    total_amount = amount;
  }

  -- A valid stock that holds the amount in its base unit sends it without an error.
  pub transfer_out_lem :
      IsValid s
      → unit_eq amount.unit s.base_unit ≡ true
      → amount.amount ≤ total s.batches
      → transfer_out amount target (select_for_consumption strategy) at s ≡ ok (sent, handed_over)
  unfolding transfer_out
  transfer_out_lem v same enough =
      let allocs = select_for_consumption strategy s.batches amount at in
      let sufficient : ltb (total s.batches) amount.amount ≡ false = ground arith in
      rw (same, sufficient, decrement_all-selected strategy amount at s v same)
        (rw (details-lower_all allocs allocs s.batches))

-- The batches that a transfer brings, in the order of its details.
pub arrivals : (ℕ → ℕ) → ℕ → ℕ → List TransferBatchDetail → List Batch
arrivals fresh k at [] = []
arrivals fresh k at (d ∷ ds) =
    record {
      id = fresh k;
      supplier_id = none;
      source_type = transfer;
      source_doc_id = "TRANSFER";
      initial_quantity = d.quantity;
      remaining_quantity = d.quantity;
      unit_cost = d.unit_cost;
      expires_at = d.expires_at;
      received_at = at;
    }
    ∷ arrivals fresh (suc k) at ds

abbrev InUnit : UnitOfMeasure → List TransferBatchDetail → Type 0
InUnit u = All (λ d. unit_eq d.quantity.unit u ≡ true)

receive_transfer-eq-arrivals :
    (fresh : ℕ → ℕ) (k at : ℕ) (u : UnitOfMeasure) (ds : List TransferBatchDetail) (bs : List Batch)
    → InUnit u ds
    → receive_transfer fresh k at u ds bs ≡ ok (bs ++ arrivals fresh k at ds)
unfolding receive_transfer arrivals
receive_transfer-eq-arrivals fresh k at u [] bs h = rw append-nil
receive_transfer-eq-arrivals fresh k at u (d ∷ ds) bs h = rw h.0 (
    receive_transfer-eq-arrivals fresh (suc k) at u ds (bs ++ _ ∷ []) h.1
    ∙ ap ok (append_assoc bs _ (arrivals fresh (suc k) at ds)))

-- The details of allocations that all are in the unit.
details-InUnit :
    (u : UnitOfMeasure) (bs : List Batch) (allocs : List BatchAllocation)
    → All (λ a. unit_eq a.quantity.unit u ≡ true) allocs
    → InUnit u (map (transfer_detail bs) allocs)
details-InUnit u bs [] h = tt
details-InUnit u bs (a ∷ allocs) h = (h.0, details-InUnit u bs allocs h.1)

allocate-unit :
    (u : UnitOfMeasure) (amount : Quantity) (left : ℕ) (cs : List Batch)
    → unit_eq amount.unit u ≡ true
    → All (λ a. unit_eq a.quantity.unit u ≡ true) (allocate amount left cs)
unfolding allocate
allocate-unit u amount left [] h = tt
allocate-unit u amount left (c ∷ cs) h =
    ground (arith, allocate-unit u amount (left - min left c.remaining_quantity.amount) cs h)

total-arrivals :
    (fresh : ℕ → ℕ) (k at : ℕ) (bs : List Batch) (allocs : List BatchAllocation)
    → total (arrivals fresh k at (map (transfer_detail bs) allocs)) ≡ allocated allocs
unfolding arrivals
total-arrivals fresh k at bs [] = refl
total-arrivals fresh k at bs (a ∷ allocs) = omega (arith, total-arrivals fresh (suc k) at bs allocs)

value-arrivals :
    (fresh : ℕ → ℕ) (k at : ℕ) (bs : List Batch) (allocs : List BatchAllocation)
    → value (arrivals fresh k at (map (transfer_detail bs) allocs)) ≡ allocated_value allocs
unfolding arrivals
value-arrivals fresh k at bs [] = refl
value-arrivals fresh k at bs (a ∷ allocs) = omega (arith, value-arrivals fresh (suc k) at bs allocs)

held-arrivals :
    (expiry : Option ℕ) (cents : ℕ) (fresh : ℕ → ℕ) (k at : ℕ) (bs : List Batch)
    (allocs : List BatchAllocation)
    → held expiry cents (arrivals fresh k at (map (transfer_detail bs) allocs))
      ≡ handed expiry cents bs allocs
unfolding arrivals
held-arrivals expiry cents fresh k at bs [] = refl
held-arrivals expiry cents fresh k at bs (a ∷ allocs) =
    rw (held-arrivals expiry cents fresh (suc k) at bs allocs)

module _ (strategy : BatchSelectionStrategy) (amount : Quantity) (target at : ℕ) (fresh : ℕ → ℕ)
    (s t : Stock) where
  -- The other stock after the transfer in.
  abbrev received : Stock
  received = add_event (stock_transferred_in (stock_id t) amount at) (record t {
    batches =
        t.batches ++ arrivals fresh 0 at (handed_over strategy amount target at s).allocations;
  })

  transfer_in_lem :
      unit_eq amount.unit t.base_unit ≡ true
      → transfer_in (handed_over strategy amount target at s) at fresh t ≡ ok received
  unfolding transfer_in select_for_consumption
  transfer_in_lem same =
      let allocs = select_for_consumption strategy s.batches amount at in
      rw (
        receive_transfer-eq-arrivals fresh 0 at t.base_unit (map (transfer_detail s.batches) allocs)
          t.batches
          (details-InUnit t.base_unit s.batches allocs
            (allocate-unit t.base_unit amount amount.amount _ same)))

  -- A transfer from a valid stock that holds the amount, to a stock in the same unit, goes through
  -- on both sides. The two stocks together hold as much as before, their batches are worth as much
  -- as before, and of each expiry and unit cost they together hold as much as before.
  pub transfer_conserves :
      (expiry : Option ℕ) (cents : ℕ)
      → IsValid s
      → unit_eq amount.unit s.base_unit ≡ true
      → unit_eq amount.unit t.base_unit ≡ true
      → amount.amount ≤ total s.batches
      → (s' t' : Stock) × (d : TransferDetails) × (transfer_out amount target
            (select_for_consumption strategy)
            at
            s
          ≡ ok (s', d))
        × (transfer_in d at fresh t ≡ ok t')
        × (total s'.batches + total t'.batches ≡ total s.batches + total t.batches)
        × (value s'.batches + value t'.batches ≡ value s.batches + value t.batches)
        × (held expiry cents s'.batches + held expiry cents t'.batches
            ≡ held expiry cents s.batches + held expiry cents t.batches)
  unfolding takeable
  transfer_conserves expiry cents v same same' enough =
      let allocs = select_for_consumption strategy s.batches amount at in
      let fits = selected-Fits strategy amount at s v same in
      let apart = selected-DistinctAllocations strategy amount at s v same in
      (
        sent strategy amount target at s,
        received,
        handed_over strategy amount target at s,
        transfer_out_lem strategy amount target at s v same enough,
        transfer_in_lem same',
        rw
            (sum_by-append remaining t.batches
              (arrivals fresh 0 at (map (transfer_detail s.batches) allocs)))
            (omega (
              arith,
              total-left_over strategy amount at s v same,
              total-arrivals fresh 0 at s.batches allocs,
              allocated-select_for_consumption strategy s.batches amount at,
            )),
        rw
            (sum_by-append (λ b. remaining b * b.unit_cost.cents) t.batches
              (arrivals fresh 0 at (map (transfer_detail s.batches) allocs)))
            (omega (
              arith,
              value-remove_depleted (left_over strategy amount at s),
              value-lower_all allocs s.batches fits apart,
              value-arrivals fresh 0 at s.batches allocs,
            )),
        rw
            (sum_by-append (λ b. if same_lot expiry cents b then remaining b else 0) t.batches
              (arrivals fresh 0 at (map (transfer_detail s.batches) allocs)))
            (omega (
              arith,
              held-remove_depleted expiry cents (left_over strategy amount at s),
              held-lower_all expiry cents allocs s.batches fits apart,
              held-arrivals expiry cents fresh 0 at s.batches allocs,
            )),
      )

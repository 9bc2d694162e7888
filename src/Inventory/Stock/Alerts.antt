-- ===== src/Inventory/Stock/Alerts.antt =====
-- The guards of `consume`, and when it raises the alerts of low and exhausted stock.
use detailing_studio.Prelude.{
  ℕ, ◌+◌, ◌≤◌, ◌≡◌, true, not, ◌&&◌, arith, List, [], ◌∷◌, ok, if◌then◌else◌, ltb, leb, ◌==◌,
  sum_by, sum_by-append, inl, inr, refl, Result-cases,
}
use detailing_studio.Shared.Quantity.{unit_eq, Quantity}
use detailing_studio.Inventory.Batch.{total}
use detailing_studio.Inventory.Selection.{BatchSelector}
use detailing_studio.Inventory.Stock.Events.{
  ConsumptionReason, StockEvent, low_stock_reached, out_of_stock_reached, stock_consumed,
}
use detailing_studio.Inventory.Stock.State.{
  Stock, stock_id, add_event, total_quantity, decrement_all, remove_depleted, sum_allocation_cost,
}
use detailing_studio.Inventory.Stock.Movement.{WriteOffResult, consume, level_events}

abbrev is_low : StockEvent → ℕ
is_low (low_stock_reached i q l t) = 1
is_low e = 0

abbrev is_out : StockEvent → ℕ
is_out (out_of_stock_reached i t) = 1
is_out e = 0

-- How many alerts of each kind a list of events holds.
abbrev pub low_alerts : List StockEvent → ℕ
low_alerts = sum_by is_low

abbrev pub out_alerts : List StockEvent → ℕ
out_alerts = sum_by is_out

level_events-alerts :
    (q : Quantity) (at : ℕ) (s : Stock)
    → (out_alerts (level_events q at s).events
        ≡ out_alerts s.events + (if total s.batches == 0 then 1 else 0))
      × (low_alerts (level_events q at s).events
          ≡ low_alerts s.events
            + (if not (total s.batches == 0)
                  && (leb (total s.batches) s.reorder_level.amount
                      && ltb s.reorder_level.amount q.amount)
                then 1
                else 0))
      × ((level_events q at s).batches ≡ s.batches)
unfolding level_events
level_events-alerts q at s =
    let out = out_of_stock_reached (stock_id s) at ∷ [] in
    let low = low_stock_reached (stock_id s) (total_quantity s) s.reorder_level at ∷ [] in
    ground (
      arith,
      sum_by-append is_out s.events out,
      sum_by-append is_low s.events out,
      sum_by-append is_out s.events low,
      sum_by-append is_low s.events low,
    )

module _ (amount : Quantity) (reason : ConsumptionReason) (select : BatchSelector) (at : ℕ)
    (s s' : Stock) (w : WriteOffResult)
    (result : consume amount reason select at s ≡ ok (s', w)) where
  -- With any selector, `consume` succeeds only for an amount in the base unit that the stock holds.
  pub consume_guarded : (unit_eq amount.unit s.base_unit ≡ true) × (amount.amount ≤ total s.batches)
  unfolding consume
  consume_guarded = ground arith

  -- The stock before the last events are added.
  consume_inversion :
      (s₁ : Stock) × (s' ≡ level_events (total_quantity s) at s₁)
      × (out_alerts s₁.events ≡ out_alerts s.events)
      × (low_alerts s₁.events ≡ low_alerts s.events)
      × (s₁.reorder_level ≡ s.reorder_level)
  unfolding consume
  consume_inversion = elim (Result-cases (decrement_all (select s.batches amount at) s.batches)) [
    | inl (bs, done) ↦
        let allocs = select s.batches amount at in
        let cost = sum_allocation_cost allocs in
        let s₁ : Stock =
          add_event (stock_consumed (stock_id s) amount reason allocs cost at)
            (record s { batches = remove_depleted bs }) in
        let last = stock_consumed (stock_id s) amount reason allocs cost at ∷ [] in
        (
          s₁,
          ground arith,
          omega (arith, sum_by-append is_out s.events last),
          omega (arith, sum_by-append is_low s.events last),
          refl,
        )
    | inr (x, failed) ↦ absurd (ground arith)
  ]

  -- With any selector, a consumption that succeeds adds the alert of an empty stock just where it
  -- leaves nothing, and the alert of a low stock just where it leaves something and takes the total
  -- from above the reorder level to that level or below: a total equal to the level is low already.
  pub consume_alerts :
      (out_alerts s'.events ≡ out_alerts s.events + (if total s'.batches == 0 then 1 else 0))
      × (low_alerts s'.events
          ≡ low_alerts s.events
            + (if not (total s'.batches == 0)
                  && (leb (total s'.batches) s.reorder_level.amount
                      && ltb s.reorder_level.amount (total s.batches))
                then 1
                else 0))
  consume_alerts =
      let (s₁, e, outs, lows, level) = consume_inversion in
      let (out, low, same) = level_events-alerts (total_quantity s) at s₁ in
      let total_eq : total s'.batches ≡ total s₁.batches = rw (e, same) in
      (rw (total_eq, ← outs) (rw e out), rw (total_eq, ← lows, ← level) (rw e low))

-- ===== src/Inventory/Stock/Coverage.antt =====
-- What the selection service picks is covered by the batches that it picked from.
use detailing_studio.Prelude.{
  ℕ, ◌-◌, ◌≡◌, refl, ◌≢◌, true, some, List, [], ◌∷◌, min, arith, All, All-filter, All-sort,
  All-insert, filter, insert, sort, sym, Bool-cases, leb, inl, inr,
}
use detailing_studio.Shared.Quantity.{unit_eq, Quantity, UnitOfMeasure}
use detailing_studio.Inventory.Batch.{Batch}
use detailing_studio.Inventory.Selection.{
  BatchSelectionStrategy, before, usable, allocate, select_for_consumption,
}
use detailing_studio.Inventory.Stock.State.{find_batch}
use detailing_studio.Inventory.Stock.Allocation.{
  Fits, DistinctAllocations, DistinctIds, Measured, filter-DistinctIds,
}

-- The batch is the one that its id finds, and it is measured in the unit.
abbrev Known : UnitOfMeasure → List Batch → Batch → Type 0
Known u bs b = (find_batch b.id bs ≡ some b) × (unit_eq b.remaining_quantity.unit u ≡ true)

Known-cons :
    (u : UnitOfMeasure) (c : Batch) (bs cs : List Batch)
    → All (λ b. b.id ≢ c.id) cs
    → All (Known u bs) cs
    → All (Known u (c ∷ bs)) cs
unfolding find_batch
Known-cons u c bs [] ne h = tt
Known-cons u c bs (b ∷ cs) ne h = ground (arith, Known-cons u c bs cs ne.1 h.1)

All-Known :
    (u : UnitOfMeasure) (bs : List Batch) → DistinctIds bs → Measured u bs → All (Known u bs) bs
unfolding find_batch
All-Known u [] d m = tt
All-Known u (b ∷ bs) d m = ground (arith, Known-cons u b bs bs d.0 (All-Known u bs d.1 m.1))

allocate-Fits :
    (amount : Quantity) (left : ℕ) (bs cs : List Batch)
    → All (Known amount.unit bs) cs
    → All (Fits bs) (allocate amount left cs)
unfolding allocate
allocate-Fits amount left bs [] h = tt
allocate-Fits amount left bs (c ∷ cs) h = elim (Bool-cases (leb left 0)) [
  | inl full ↦ rw full tt
  | inr more ↦ rw more (
    (c, h.0.0, omega arith, h.0.1, refl),
    allocate-Fits amount (left - min left c.remaining_quantity.amount) bs cs h.1,
  )
]

allocate-ne :
    (amount : Quantity) (left i : ℕ) (cs : List Batch)
    → All (λ c. c.id ≢ i) cs
    → All (λ a. a.batch_id ≢ i) (allocate amount left cs)
unfolding allocate
allocate-ne amount left i [] h = tt
allocate-ne amount left i (c ∷ cs) h =
    ground (arith, allocate-ne amount (left - min left c.remaining_quantity.amount) i cs h.1)

allocate-DistinctAllocations :
    (amount : Quantity) (left : ℕ) (cs : List Batch)
    → DistinctIds cs
    → DistinctAllocations (allocate amount left cs)
unfolding allocate
allocate-DistinctAllocations amount left [] h = tt
allocate-DistinctAllocations amount left (c ∷ cs) h =
    let left' = left - min left c.remaining_quantity.amount in
    ground (
      arith,
      allocate-ne amount left' c.id cs h.0,
      allocate-DistinctAllocations amount left' cs h.1,
    )

module _ (strategy : BatchSelectionStrategy) where
  insert-DistinctIds :
      (b : Batch) (bs : List Batch)
      → All (λ c. c.id ≢ b.id) bs
      → DistinctIds bs
      → DistinctIds (insert (before strategy) b bs)
  insert-DistinctIds b [] ne d = (tt, tt)
  insert-DistinctIds b (c ∷ bs) ne d = elim (Bool-cases (before strategy b c)) [
    | inl first ↦ rw first (ne, d)
    | inr later ↦ rw later (
      All-insert (before strategy) (λ x. x.id ≢ c.id) b bs (λ e. ne.0 (sym e)) d.0,
      insert-DistinctIds b bs ne.1 d.1,
    )
  ]

  sort-DistinctIds : (bs : List Batch) → DistinctIds bs → DistinctIds (sort (before strategy) bs)
  sort-DistinctIds [] d = tt
  sort-DistinctIds (b ∷ bs) d =
      insert-DistinctIds b (sort (before strategy) bs)
        (All-sort (before strategy) (λ c. c.id ≢ b.id) bs d.0) (sort-DistinctIds bs d.1)

  -- The selection never asks a batch for more than it holds, nor twice.
  pub select_for_consumption-Fits :
      (bs : List Batch) (amount : Quantity) (at : ℕ)
      → DistinctIds bs
      → Measured amount.unit bs
      → All (Fits bs) (select_for_consumption strategy bs amount at)
  unfolding select_for_consumption
  select_for_consumption-Fits bs amount at d m =
      allocate-Fits amount amount.amount bs (sort (before strategy) (filter (usable at) bs)) (
        All-sort (before strategy) (Known amount.unit bs) (filter (usable at) bs)
          (All-filter (Known amount.unit bs) (usable at) bs (All-Known amount.unit bs d m)))

  pub select_for_consumption-DistinctAllocations :
      (bs : List Batch) (amount : Quantity) (at : ℕ)
      → DistinctIds bs
      → DistinctAllocations (select_for_consumption strategy bs amount at)
  unfolding select_for_consumption
  select_for_consumption-DistinctAllocations bs amount at d =
      allocate-DistinctAllocations amount amount.amount
        (sort (before strategy) (filter (usable at) bs))
        (sort-DistinctIds (filter (usable at) bs) (filter-DistinctIds (usable at) bs d))

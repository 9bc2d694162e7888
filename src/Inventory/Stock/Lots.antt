-- ===== src/Inventory/Stock/Lots.antt =====
-- How much a stock holds of each expiry and unit cost.
use detailing_studio.Prelude.{
  ℕ, ◌+◌, ◌≤◌, ◌≡◌, refl, ◌∙◌, Bool, true, false, ◌&&◌, Option, none, some, List, [], ◌∷◌, map,
  arith, ◌==◌, if◌then◌else◌, sum_by, All, Bool-cases, inl, inr,
}
use detailing_studio.Inventory.Batch.{Batch, remaining}
use detailing_studio.Inventory.Selection.{BatchAllocation}
use detailing_studio.Inventory.Stock.State.{find_batch, remove_depleted}
use detailing_studio.Inventory.Stock.Movement.{expiry_of, transfer_detail}
use detailing_studio.Inventory.Stock.Allocation.{
  Fits, DistinctAllocations, All-Fits-lower, lower, lower_all,
}

abbrev pub same_expiry : Option ℕ → Option ℕ → Bool
same_expiry none none = true
same_expiry none (some y) = false
same_expiry (some x) none = false
same_expiry (some x) (some y) = x == y

abbrev pub same_lot : Option ℕ → ℕ → Batch → Bool
same_lot expiry cents b = same_expiry b.expires_at expiry && b.unit_cost.cents == cents

-- What the batches of an expiry and a unit cost hold.
abbrev pub held : Option ℕ → ℕ → List Batch → ℕ
held expiry cents = sum_by (λ b. if same_lot expiry cents b then remaining b else 0)

-- What allocations take of an expiry and a unit cost.
abbrev pub handed : Option ℕ → ℕ → List Batch → List BatchAllocation → ℕ
handed expiry cents bs = sum_by (λ a.
    if same_expiry (expiry_of (find_batch a.batch_id bs)) expiry && a.unit_cost.cents == cents
    then a.quantity.amount
    else 0)

expiry-lower :
    (i n j : ℕ) (bs : List Batch)
    → expiry_of (find_batch j (lower i n bs)) ≡ expiry_of (find_batch j bs)
unfolding lower find_batch
expiry-lower i n j [] = refl
expiry-lower i n j (b ∷ bs) = ground (arith, expiry-lower i n j bs)

expiry-lower_all :
    (allocs : List BatchAllocation) (j : ℕ) (bs : List Batch)
    → expiry_of (find_batch j (lower_all allocs bs)) ≡ expiry_of (find_batch j bs)
unfolding lower_all
expiry-lower_all [] j bs = refl
expiry-lower_all (a ∷ allocs) j bs =
    expiry-lower_all allocs j (lower a.batch_id a.quantity.amount bs)
    ∙ expiry-lower a.batch_id a.quantity.amount j bs

-- The details name the expiry that each batch had before it was decremented.
pub details-lower_all :
    (taken allocs : List BatchAllocation) (bs : List Batch)
    → map (transfer_detail (lower_all taken bs)) allocs ≡ map (transfer_detail bs) allocs
details-lower_all taken [] bs = refl
details-lower_all taken (a ∷ allocs) bs =
    rw (details-lower_all taken allocs bs, expiry-lower_all taken a.batch_id bs)

module _ (expiry : Option ℕ) (cents : ℕ) where
  held-lower :
      (i n : ℕ) (bs : List Batch) (b : Batch)
      → find_batch i bs ≡ some b
      → n ≤ remaining b
      → held expiry cents (lower i n bs) + (if same_lot expiry cents b then n else 0)
        ≡ held expiry cents bs
  unfolding lower find_batch
  held-lower i n [] b e h = cc
  held-lower i n (c ∷ bs) b e h = elim (Bool-cases (c.id == i)) [
    | inl hit ↦
        let same : c ≡ b = let e' = rw hit at e in cc in
        let covered : n ≤ remaining c = rw same h in
        rw (hit, ← same)
          (elim (Bool-cases (same_lot expiry cents c)) [
            | inl own ↦ rw own (omega arith)
            | inr other ↦ rw other (omega arith)
          ])
    | inr miss ↦ rw miss (omega (arith, held-lower i n bs b (let e' = rw miss at e in e') h))
  ]

  handed-lower :
      (i n : ℕ) (bs : List Batch) (allocs : List BatchAllocation)
      → handed expiry cents (lower i n bs) allocs ≡ handed expiry cents bs allocs
  handed-lower i n bs [] = refl
  handed-lower i n bs (a ∷ allocs) = rw (expiry-lower i n a.batch_id bs, handed-lower i n bs allocs)

  -- What the allocations take is missing from what is held.
  pub held-lower_all :
      (allocs : List BatchAllocation) (bs : List Batch)
      → All (Fits bs) allocs
      → DistinctAllocations allocs
      → held expiry cents (lower_all allocs bs) + handed expiry cents bs allocs
        ≡ held expiry cents bs
  unfolding lower_all
  held-lower_all [] bs f d = omega arith
  held-lower_all (a ∷ allocs) bs ((b, found, covers, same, cost), fs) (apart, d) =
      rw (found, cost)
        (omega (
          arith,
          held-lower a.batch_id a.quantity.amount bs b found covers,
          handed-lower a.batch_id a.quantity.amount bs allocs,
          held-lower_all allocs (lower a.batch_id a.quantity.amount bs)
              (All-Fits-lower bs a.batch_id a.quantity.amount allocs apart fs) d,
        ))

  pub held-remove_depleted :
      (bs : List Batch) → held expiry cents (remove_depleted bs) ≡ held expiry cents bs
  held-remove_depleted [] = refl
  held-remove_depleted (b ∷ bs) = elim (Bool-cases (remaining b == 0)) [
    | inl empty ↦ ground (arith, held-remove_depleted bs)
    | inr full ↦ rw (full, held-remove_depleted bs)
  ]

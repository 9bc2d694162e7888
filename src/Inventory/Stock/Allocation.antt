-- ===== src/Inventory/Stock/Allocation.antt =====
-- Decrementing the batches of a stock by allocations that they cover.
use detailing_studio.Prelude.{
  ℕ, ◌+◌, ◌-◌, ◌*◌, sum_by, ap, Bool-cases, inl, inr, ◌≤◌, ◌≡◌, refl, ◌≢◌, true, some, List, [],
  ◌∷◌, arith, ◌==◌, if◌then◌else◌, All, All-filter, filter, ok, Bool,
}
use detailing_studio.Shared.Quantity.{UnitOfMeasure, unit_eq, Quantity, subtract}
use detailing_studio.Inventory.Batch.{Batch, decrement, total, remaining}
use detailing_studio.Inventory.Selection.{BatchAllocation, allocated}
use detailing_studio.Inventory.Stock.State.{
  find_batch, decrement_batch, decrement_all, remove_depleted,
}

-- The batches with the first of an id lowered by an amount.
unfoldable pub lower : ℕ → ℕ → List Batch → List Batch
lower id n [] = []
lower id n (b ∷ bs) =
    if b.id == id
    then record b {
      remaining_quantity = record {
        amount = b.remaining_quantity.amount - n;
        unit = b.remaining_quantity.unit;
      };
    }
      ∷ bs
    else b ∷ lower id n bs

unfoldable pub lower_all : List BatchAllocation → List Batch → List Batch
lower_all [] bs = bs
lower_all (a ∷ allocs) bs = lower_all allocs (lower a.batch_id a.quantity.amount bs)

-- The batches hold one that covers the allocation.
abbrev pub Fits : List Batch → BatchAllocation → Type 0
Fits bs a =
    (b : Batch) × (find_batch a.batch_id bs ≡ some b)
    × (a.quantity.amount ≤ remaining b)
    × (unit_eq b.remaining_quantity.unit a.quantity.unit ≡ true)
    × (a.unit_cost ≡ b.unit_cost)

-- No two allocations are from one batch.
abbrev pub DistinctAllocations : List BatchAllocation → Type 0
DistinctAllocations [] = Unit
DistinctAllocations (a ∷ allocs) =
    All (λ c. c.batch_id ≢ a.batch_id) allocs × DistinctAllocations allocs

find-lower_ne :
    (i j n : ℕ) (bs : List Batch) → j ≢ i → find_batch j (lower i n bs) ≡ find_batch j bs
unfolding lower find_batch
find-lower_ne i j n [] h = refl
find-lower_ne i j n (b ∷ bs) h = ground (arith, find-lower_ne i j n bs h)

-- An allocation from another batch stays covered.
Fits-lower :
    (bs : List Batch) (i n : ℕ) (a : BatchAllocation)
    → a.batch_id ≢ i
    → Fits bs a
    → Fits (lower i n bs) a
Fits-lower bs i n a ne (b, found, covers, same, cost) =
    (b, rw (find-lower_ne i a.batch_id n bs ne) found, covers, same, cost)

total-lower :
    (i n : ℕ) (bs : List Batch) (b : Batch)
    → find_batch i bs ≡ some b
    → n ≤ remaining b
    → total (lower i n bs) + n ≡ total bs
unfolding lower find_batch
total-lower i n [] b e h = cc
total-lower i n (c ∷ bs) b e h = ground (arith, total-lower i n bs b)

decrement_lem :
    (q : Quantity) (b : Batch)
    → q.amount ≤ remaining b
    → unit_eq b.remaining_quantity.unit q.unit ≡ true
    → decrement q b
      ≡ ok (record b {
        remaining_quantity = record {
          amount = b.remaining_quantity.amount - q.amount;
          unit = b.remaining_quantity.unit;
        };
      })
unfolding decrement subtract
decrement_lem q b h u = ground arith

decrement_batch-eq-lower :
    (i : ℕ) (q : Quantity) (bs : List Batch) (b : Batch)
    → find_batch i bs ≡ some b
    → q.amount ≤ remaining b
    → unit_eq b.remaining_quantity.unit q.unit ≡ true
    → decrement_batch i q bs ≡ ok (lower i q.amount bs)
unfolding lower find_batch decrement_batch
decrement_batch-eq-lower i q [] b e h u = cc
decrement_batch-eq-lower i q (c ∷ bs) b e h u =
    ground (arith, decrement_lem q c, decrement_batch-eq-lower i q bs b)

pub All-Fits-lower :
    (bs : List Batch) (i n : ℕ) (allocs : List BatchAllocation)
    → All (λ c. c.batch_id ≢ i) allocs
    → All (Fits bs) allocs
    → All (Fits (lower i n bs)) allocs
All-Fits-lower bs i n [] ne fs = tt
All-Fits-lower bs i n (c ∷ cs) ne fs =
    (Fits-lower bs i n c ne.0 fs.0, All-Fits-lower bs i n cs ne.1 fs.1)

-- Covered allocations from distinct batches are all taken.
pub decrement_all-eq-lower_all :
    (allocs : List BatchAllocation) (bs : List Batch)
    → All (Fits bs) allocs
    → DistinctAllocations allocs
    → decrement_all allocs bs ≡ ok (lower_all allocs bs)
unfolding lower_all decrement_all
decrement_all-eq-lower_all [] bs f d = refl
decrement_all-eq-lower_all (a ∷ allocs) bs ((b, found, covers, same, cost), fs) (apart, d) =
    rw (decrement_batch-eq-lower a.batch_id a.quantity bs b found covers same) (
      decrement_all-eq-lower_all allocs (lower a.batch_id a.quantity.amount bs)
        (All-Fits-lower bs a.batch_id a.quantity.amount allocs apart fs) d)

-- What is taken out is missing from the total.
pub total-lower_all :
    (allocs : List BatchAllocation) (bs : List Batch)
    → All (Fits bs) allocs
    → DistinctAllocations allocs
    → total (lower_all allocs bs) + allocated allocs ≡ total bs
unfolding lower_all
total-lower_all [] bs f d = omega arith
total-lower_all (a ∷ allocs) bs ((b, found, covers, same, cost), fs) (apart, d) = omega (
  arith,
  total-lower a.batch_id a.quantity.amount bs b found covers,
  total-lower_all allocs (lower a.batch_id a.quantity.amount bs)
      (All-Fits-lower bs a.batch_id a.quantity.amount allocs apart fs) d,
)

-- What a list of batches is worth, in kopecks per 1024 units.
abbrev pub value : List Batch → ℕ
value = sum_by (λ b. remaining b * b.unit_cost.cents)

abbrev pub allocated_value : List BatchAllocation → ℕ
allocated_value = sum_by (λ a. a.quantity.amount * a.unit_cost.cents)

mul_split : (n r c : ℕ) → n ≤ r → (r - n) * c + n * c ≡ r * c
mul_split n r c h = let e : r ≡ (r - n) + n = omega arith in omega (arith, ap (λ (t : ℕ). t * c) e)

value-lower :
    (i n : ℕ) (bs : List Batch) (b : Batch)
    → find_batch i bs ≡ some b
    → n ≤ remaining b
    → value (lower i n bs) + n * b.unit_cost.cents ≡ value bs
unfolding lower find_batch
value-lower i n [] b e h = cc
value-lower i n (c ∷ bs) b e h = elim (Bool-cases (c.id == i)) [
  | inl hit ↦ rw hit (
      let same : c ≡ b = ground arith in
      rw (← same) (omega (arith, mul_split n (remaining c) c.unit_cost.cents (rw same h))))
  | inr miss ↦ rw miss (omega (arith, value-lower i n bs b (ground arith) h))
]

-- What is taken out is worth what is missing from the value.
pub value-lower_all :
    (allocs : List BatchAllocation) (bs : List Batch)
    → All (Fits bs) allocs
    → DistinctAllocations allocs
    → value (lower_all allocs bs) + allocated_value allocs ≡ value bs
unfolding lower_all
value-lower_all [] bs f d = omega arith
value-lower_all (a ∷ allocs) bs ((b, found, covers, same, cost), fs) (apart, d) = rw cost (
    omega (
      arith,
      value-lower a.batch_id a.quantity.amount bs b found covers,
      value-lower_all allocs (lower a.batch_id a.quantity.amount bs)
          (All-Fits-lower bs a.batch_id a.quantity.amount allocs apart fs) d,
    ))

-- Every batch of a stock is known by its id and is measured in one unit.
abbrev pub DistinctIds : List Batch → Type 0
DistinctIds [] = Unit
DistinctIds (b ∷ bs) = All (λ c. c.id ≢ b.id) bs × DistinctIds bs

abbrev pub Measured : UnitOfMeasure → List Batch → Type 0
Measured unit = All (λ b. unit_eq b.remaining_quantity.unit unit ≡ true)

module _ (i n : ℕ) where
  All-id-lower :
      (j : ℕ) (bs : List Batch) → All (λ c. c.id ≢ j) bs → All (λ c. c.id ≢ j) (lower i n bs)
  unfolding lower
  All-id-lower j [] h = tt
  All-id-lower j (b ∷ bs) h = ground (arith, All-id-lower j bs h.1)

  lower-DistinctIds : (bs : List Batch) → DistinctIds bs → DistinctIds (lower i n bs)
  unfolding lower
  lower-DistinctIds [] h = tt
  lower-DistinctIds (b ∷ bs) h = ground (arith, lower-DistinctIds bs h.1, All-id-lower b.id bs h.0)

  lower-Measured : (u : UnitOfMeasure) (bs : List Batch) → Measured u bs → Measured u (lower i n bs)
  unfolding lower
  lower-Measured u [] h = tt
  lower-Measured u (b ∷ bs) h = ground (arith, lower-Measured u bs h.1)

pub lower_all-DistinctIds :
    (allocs : List BatchAllocation) (bs : List Batch)
    → DistinctIds bs
    → DistinctIds (lower_all allocs bs)
unfolding lower_all
lower_all-DistinctIds [] bs h = h
lower_all-DistinctIds (a ∷ allocs) bs h =
    lower_all-DistinctIds allocs (lower a.batch_id a.quantity.amount bs)
      (lower-DistinctIds a.batch_id a.quantity.amount bs h)

pub lower_all-Measured :
    (u : UnitOfMeasure) (allocs : List BatchAllocation) (bs : List Batch)
    → Measured u bs
    → Measured u (lower_all allocs bs)
unfolding lower_all
lower_all-Measured u [] bs h = h
lower_all-Measured u (a ∷ allocs) bs h =
    lower_all-Measured u allocs (lower a.batch_id a.quantity.amount bs)
      (lower-Measured a.batch_id a.quantity.amount u bs h)

pub value-remove_depleted : (bs : List Batch) → value (remove_depleted bs) ≡ value bs
value-remove_depleted [] = refl
value-remove_depleted (b ∷ bs) = ground (arith, value-remove_depleted bs)

-- A depleted batch holds nothing, so dropping it leaves the total.
pub total-remove_depleted : (bs : List Batch) → total (remove_depleted bs) ≡ total bs
total-remove_depleted [] = refl
total-remove_depleted (b ∷ bs) = ground (arith, total-remove_depleted bs)

abbrev pub Positive : List Batch → Type 0
Positive = All (λ b. remaining b ≢ 0)

pub remove_depleted-Positive : (bs : List Batch) → Positive (remove_depleted bs)
remove_depleted-Positive [] = tt
remove_depleted-Positive (b ∷ bs) = ground (arith, remove_depleted-Positive bs)

pub filter-DistinctIds :
    (p : Batch → Bool) (bs : List Batch) → DistinctIds bs → DistinctIds (filter p bs)
filter-DistinctIds p [] h = tt
filter-DistinctIds p (b ∷ bs) h =
    ground (arith, filter-DistinctIds p bs h.1, All-filter (λ c. c.id ≢ b.id) p bs h.0)

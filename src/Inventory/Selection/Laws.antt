-- ===== src/Inventory/Selection/Laws.antt =====
-- What the selection takes, and in which order.
use mathlib.Core.List.{Perm}
use detailing_studio.Prelude.{
  ℕ, ◌-◌, ◌+◌, ◌<◌, ◌≡◌, refl, ap, subst, ◌∙◌, Bool, true, false, not, ◌&&◌, ◌||◌, Option, none,
  some, ltb, All-map, List, [], ◌∷◌, ◌++◌, map, min, leb, arith, filter, sort, sum_by-sort,
  sort-perm, IsSorted, sort-IsSorted,
}
use detailing_studio.Shared.Quantity.{Quantity, UnitOfMeasure}
use detailing_studio.Shared.Quantity
use detailing_studio.Inventory.Batch.{Batch, total, remaining}
use detailing_studio.Inventory.Selection.{
  BatchSelectionStrategy, fefo, fifo, BatchAllocation, before, usable, allocate,
  select_for_consumption, allocated,
}

pub allocated-allocate :
    (amount : Quantity) (left : ℕ) (bs : List Batch)
    → allocated (allocate amount left bs) ≡ min left (total bs)
unfolding allocate
allocated-allocate amount left [] = omega arith
allocated-allocate amount left (b ∷ bs) =
    ground (arith, allocated-allocate amount (left - min left b.remaining_quantity.amount) bs)

-- The allocations add up to the amount, or to all that is usable where that is less.
pub allocated-select_for_consumption :
    (strategy : BatchSelectionStrategy) (bs : List Batch) (amount : Quantity) (at : ℕ)
    → allocated (select_for_consumption strategy bs amount at)
      ≡ min amount.amount (total (filter (usable at) bs))
unfolding select_for_consumption
allocated-select_for_consumption strategy bs amount at =
    rw (allocated-allocate amount amount.amount (sort (before strategy) (filter (usable at) bs)))
      (rw (sum_by-sort (before strategy) remaining (filter (usable at) bs)))

-- The usable batches, in the order in which they are taken.
unfoldable pub selection_order : BatchSelectionStrategy → List Batch → ℕ → List Batch
selection_order strategy bs at = sort (before strategy) (filter (usable at) bs)

before_trans :
    (strategy : BatchSelectionStrategy) (a b c : Batch)
    → before strategy a b ≡ true
    → before strategy b c ≡ true
    → before strategy a c ≡ true
before_trans fefo a b c p q = ground arith
before_trans fifo a b c p q = ground arith

before_total :
    (strategy : BatchSelectionStrategy) (a b : Batch)
    → before strategy a b ≡ false
    → before strategy b a ≡ true
before_total fefo a b p = ground arith
before_total fifo a b p = ground arith

-- The batch expires after the time, or never, and something is left of it.
abbrev pub can_be_taken : ℕ → Batch → Bool
can_be_taken at b =
    elim b.expires_at [ none ↦ true | some expiry ↦ ltb at expiry ] && ltb 0 (remaining b)

-- Of two expiries, none being never, the first is not the later one.
abbrev pub no_later : Option ℕ → Option ℕ → Bool
no_later a none = true
no_later none (some y) = false
no_later (some x) (some y) = leb x y

-- The first batch is to be taken no later than the second: by FEFO it expires no later, and where
-- the second expires no later either, it arrived no later; by FIFO it arrived no later.
abbrev pub in_turn : BatchSelectionStrategy → Batch → Batch → Bool
in_turn fefo a b =
    no_later a.expires_at b.expires_at
    && (not (no_later b.expires_at a.expires_at) || leb a.received_at b.received_at)
in_turn fifo a b = leb a.received_at b.received_at

usable-eq-can_be_taken :
    (at : ℕ) (bs : List Batch) → filter (usable at) bs ≡ filter (can_be_taken at) bs
usable-eq-can_be_taken at [] = refl
usable-eq-can_be_taken at (b ∷ bs) = rw (one at b, usable-eq-can_be_taken at bs)
  where
    one : (at : ℕ) (b : Batch) → usable at b ≡ can_be_taken at b
    one at b = ground arith

before-in_turn :
    (strategy : BatchSelectionStrategy) (a b : Batch)
    → before strategy a b ≡ true
    → in_turn strategy a b ≡ true
before-in_turn fefo a b h = ground arith
before-in_turn fifo a b h = h

IsSorted-in_turn :
    (strategy : BatchSelectionStrategy) (bs : List Batch)
    → IsSorted (before strategy) bs
    → IsSorted (in_turn strategy) bs
IsSorted-in_turn strategy [] s = tt
IsSorted-in_turn strategy (b ∷ bs) s = (
  All-map (λ c. before strategy b c ≡ true) (λ c. in_turn strategy b c ≡ true)
      (before-in_turn strategy b) bs s.0,
  IsSorted-in_turn strategy bs s.1,
)

-- The order holds just the batches that expire after the time, or never, and that are not empty. By
-- FEFO a batch never stands after one that expires later, with no expiry last, nor, of two that
-- expire at one time, after one that arrived later; by FIFO it never stands after one that arrived
-- later.
pub selection_order-IsSorted :
    (strategy : BatchSelectionStrategy) (bs : List Batch) (at : ℕ)
    → Perm (selection_order strategy bs at) (filter (can_be_taken at) bs)
      × IsSorted (in_turn strategy) (selection_order strategy bs at)
unfolding selection_order
selection_order-IsSorted strategy bs at = (
  subst (λ xs. Perm (selection_order strategy bs at) xs) (usable-eq-can_be_taken at bs)
      (sort-perm (before strategy) (filter (usable at) bs)),
  IsSorted-in_turn strategy (selection_order strategy bs at) (
      sort-IsSorted (before strategy) (before_trans strategy) (before_total strategy)
        (filter (usable at) bs)),
)

-- The allocation that empties a batch.
abbrev pub whole : UnitOfMeasure → Batch → BatchAllocation
whole u b = record {
  batch_id = b.id;
  quantity = Quantity.of b.remaining_quantity.amount u;
  unit_cost = b.unit_cost;
}

allocate-append :
    (amount : Quantity) (left : ℕ) (xs ys : List Batch)
    → total xs < left
    → allocate amount left (xs ++ ys)
      ≡ map (whole amount.unit) xs ++ allocate amount (left - total xs) ys
unfolding allocate
allocate-append amount left [] ys h = ap (λ n. allocate amount n ys) (omega arith)
allocate-append amount left (x ∷ xs) ys h =
    let r = x.remaining_quantity.amount in
    let taken : min left r ≡ r = omega arith in
    let rest : left - r - total xs ≡ left - (r + total xs) = omega arith in
    let more : leb left 0 ≡ false = ground arith in
    rw (more, taken)
      (ap (◌∷◌ (whole amount.unit x)) (
        allocate-append amount (left - r) xs ys (omega arith)
        ∙ ap (λ n. map (whole amount.unit) xs ++ allocate amount n ys) rest))

-- As long as the batches first in the order hold less than the amount, each of them is emptied
-- before a later one is touched.
pub select_empties_first :
    (strategy : BatchSelectionStrategy) (bs : List Batch) (amount : Quantity) (at : ℕ)
    (xs ys : List Batch)
    → selection_order strategy bs at ≡ xs ++ ys
    → total xs < amount.amount
    → select_for_consumption strategy bs amount at
      ≡ map (whole amount.unit) xs ++ allocate amount (amount.amount - total xs) ys
unfolding select_for_consumption selection_order
select_empties_first strategy bs amount at xs ys e h =
    rw e (allocate-append amount amount.amount xs ys h)

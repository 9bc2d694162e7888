-- ===== src/WorkOrder/Operations/Consumed.antt =====
-- The lines of a work order as a map from the SKU to what was consumed.
use detailing_studio.Prelude.{
  ℕ, ◌≡◌, refl, arith, true, false, Option, none, some, List, [], ◌∷◌, ◌++◌, String, ok, ◌==◌,
  if◌then◌else◌, Option-cases, Bool-cases, inl, inr,
}
use detailing_studio.Shared.Quantity.{Quantity}
use detailing_studio.WorkOrder.Data.{WorkOrder, ConsumptionLine, create, update}
use detailing_studio.WorkOrder.Operations.{update_by_sku, find_by_sku, add_consumption}

-- The map that the lines stand for: what was consumed of an SKU.
abbrev amount_of : Option ConsumptionLine → Option Quantity
amount_of none = none
amount_of (some l) = some l.actual_amount

abbrev pub consumed : ℕ → WorkOrder → Option Quantity
consumed sku w = amount_of (find_by_sku sku w.lines)

find-update_by_sku :
    (sku at : ℕ) (amount : Quantity) (reason comment : Option String) (ls : List ConsumptionLine)
    (l : ConsumptionLine)
    → find_by_sku at ls ≡ some l
    → amount_of (find_by_sku sku (update_by_sku at (update amount reason comment) ls))
      ≡ (if at == sku then some amount else amount_of (find_by_sku sku ls))
unfolding find_by_sku update_by_sku
find-update_by_sku sku at amount reason comment [] l e = absurd (cc)
find-update_by_sku sku at amount reason comment (x ∷ xs) l e = elim (Bool-cases (x.sku_id == at)) [
  | inl hit ↦ elim (Bool-cases (x.sku_id == sku)) [
    | inl this ↦ let also : (at == sku) ≡ true = ground arith in rw (hit, also, this) refl
    | inr other ↦ let also : (at == sku) ≡ false = ground arith in rw (hit, also, other) refl
  ]
  | inr miss ↦
      let rest = find-update_by_sku sku at amount reason comment xs l (rw miss at e) in
      elim (Bool-cases (x.sku_id == sku)) [
        | inl this ↦ let also : (at == sku) ≡ false = ground arith in rw (miss, also, this) refl
        | inr other ↦ rw (miss, other) rest
      ]
]

find-append_line :
    (sku at new_id : ℕ) (amount : Quantity) (reason comment : Option String)
    (ls : List ConsumptionLine)
    → find_by_sku at ls ≡ none
    → amount_of (find_by_sku sku (ls ++ create new_id at amount reason comment ∷ []))
      ≡ (if at == sku then some amount else amount_of (find_by_sku sku ls))
unfolding find_by_sku
find-append_line sku at new_id amount reason comment [] e = elim (Bool-cases (at == sku)) [
  | inl this ↦ rw this refl
  | inr other ↦ rw other refl
]
find-append_line sku at new_id amount reason comment (x ∷ xs) e =
    elim (Bool-cases (x.sku_id == at)) [
      | inl hit ↦ absurd (let e' = rw hit at e in cc)
      | inr miss ↦
          let rest = find-append_line sku at new_id amount reason comment xs (rw miss at e) in
          elim (Bool-cases (x.sku_id == sku)) [
            | inl this ↦ let also : (at == sku) ≡ false = ground arith in rw (also, this) refl
            | inr other ↦ rw other rest
          ]
    ]

-- Consuming an SKU implements the update of the map at that SKU: afterwards the new amount stands
-- there, and every other SKU has what it had.
pub add_consumption-consumed :
    (sku at : ℕ) (amount : Quantity) (now new_id : ℕ) (reason comment : Option String)
    (w : WorkOrder) (v : WorkOrder)
    → add_consumption at amount now new_id reason comment w ≡ ok v
    → consumed sku v ≡ (if at == sku then some amount else consumed sku w)
unfolding add_consumption
add_consumption-consumed sku at amount now new_id reason comment w v e =
    elim (Option-cases (find_by_sku at w.lines)) [
      | inl fresh ↦
          let e' = rw fresh at e in
          let found = find-append_line sku at new_id amount reason comment w.lines fresh in
          let left : v.lines ≡ w.lines ++ create new_id at amount reason comment ∷ [] =
            ground arith in
          rw left found
      | inr (l, has) ↦
          let e' = rw has at e in
          let found = find-update_by_sku sku at amount reason comment w.lines l has in
          let left : v.lines ≡ update_by_sku at (update amount reason comment) w.lines =
            ground arith in
          rw left found
    ]

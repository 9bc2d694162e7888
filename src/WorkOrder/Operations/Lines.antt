-- ===== src/WorkOrder/Operations/Lines.antt =====
-- The lines of a work order: one for each SKU.
use detailing_studio.Prelude.{
  ℕ, suc, ◌≤◌, ◌≡◌, refl, arith, Option, none, List, [], ◌∷◌, String, ok, ◌==◌, ==_iff,
  if◌then◌else◌, Option-cases, Bool-cases, inl, inr, sum_by, sum_by-append,
}
use detailing_studio.Shared.Quantity.{Quantity}
use detailing_studio.WorkOrder.Data.{
  WorkOrder, ConsumptionLine, ServiceSnapshot, MaterialNorm, create, update, validate_photo_ref,
}
use detailing_studio.WorkOrder.Operations.{
  draft_lines, open_from_appointment, update_by_sku, update_by_id, drop_line, add_photo_before,
  add_photo_after, remove_photo, find_by_sku, find_line, add_consumption, update_consumption,
  remove_consumption, submit_for_review, return_to_in_progress, start_closing, finalize_close,
  revert_closing, reopen, cancel,
}
use detailing_studio.WorkOrder.Operations.Lifecycle.{
  Command, photographs_before, photographs_after, removes_photo, consumes, updates, removes_line,
  submits, returns, starts_closing, finalizes, reverts, reopens, cancels, run_command, Reach, here,
  next,
}

-- How many lines, and how many norms, have the SKU.
abbrev pub lines_of : ℕ → List ConsumptionLine → ℕ
lines_of sku = sum_by (λ l. if l.sku_id == sku then 1 else 0)

abbrev pub norms_of : ℕ → List MaterialNorm → ℕ
norms_of sku = sum_by (λ m. if m.sku_id == sku then 1 else 0)

lines_of-draft_lines :
    (sku : ℕ) (id_gen : ℕ → ℕ) (n : ℕ) (ms : List MaterialNorm)
    → lines_of sku (draft_lines id_gen n ms) ≡ norms_of sku ms
unfolding draft_lines
lines_of-draft_lines sku id_gen n [] = refl
lines_of-draft_lines sku id_gen n (m ∷ ms) =
    ground (arith, lines_of-draft_lines sku id_gen (suc n) ms)

lines_of-update_by_sku :
    (sku at : ℕ) (amount : Quantity) (reason comment : Option String) (ls : List ConsumptionLine)
    → lines_of sku (update_by_sku at (update amount reason comment) ls) ≡ lines_of sku ls
unfolding update_by_sku
lines_of-update_by_sku sku at amount reason comment [] = refl
lines_of-update_by_sku sku at amount reason comment (l ∷ ls) =
    ground (arith, lines_of-update_by_sku sku at amount reason comment ls)

lines_of-update_by_id :
    (sku id : ℕ) (amount : Quantity) (reason comment : Option String) (ls : List ConsumptionLine)
    → lines_of sku (update_by_id id (update amount reason comment) ls) ≡ lines_of sku ls
unfolding update_by_id
lines_of-update_by_id sku id amount reason comment [] = refl
lines_of-update_by_id sku id amount reason comment (l ∷ ls) =
    ground (arith, lines_of-update_by_id sku id amount reason comment ls)

lines_of-drop_line :
    (sku id : ℕ) (ls : List ConsumptionLine) → lines_of sku (drop_line id ls) ≤ lines_of sku ls
unfolding drop_line
lines_of-drop_line sku id [] = omega arith
lines_of-drop_line sku id (l ∷ ls) = ground (arith, lines_of-drop_line sku id ls)

find_none : (sku : ℕ) (ls : List ConsumptionLine) → find_by_sku sku ls ≡ none → lines_of sku ls ≡ 0
unfolding find_by_sku
find_none sku [] e = refl
find_none sku (l ∷ ls) e = elim (Bool-cases (l.sku_id == sku)) [
  | inl hit ↦ absurd (let e' = rw hit at e in cc)
  | inr miss ↦ let rest = find_none sku ls (rw miss at e) in ground (arith, rest)
]

consume_lines :
    (sku at : ℕ) (amount : Quantity) (now new_id : ℕ) (reason comment : Option String)
    (w : WorkOrder) {v : WorkOrder}
    → add_consumption at amount now new_id reason comment w ≡ ok v
    → lines_of sku w.lines ≤ 1
    → lines_of sku v.lines ≤ 1
unfolding add_consumption
consume_lines sku at amount now new_id reason comment w e h =
    elim (Option-cases (find_by_sku at w.lines)) [
      | inl fresh ↦
          let e' = rw fresh at e in
          let no_line = find_none at w.lines fresh in
          let parts =
            sum_by-append (λ l. if l.sku_id == sku then 1 else 0) w.lines
              (create new_id at amount reason comment ∷ []) in
          elim (Bool-cases (at == sku)) [
            | inl hit ↦
                let same : at ≡ sku = (==_iff at sku).0 hit in
                let no_line' : lines_of sku w.lines ≡ 0 = rw (← same) no_line in
                ground (arith, parts, no_line')
            | inr miss ↦ ground (arith, parts)
          ]
      | inr (l, found) ↦
          let e' = rw found at e in
          let kept = lines_of-update_by_sku sku at amount reason comment w.lines in
          ground (arith, kept)
    ]

module _ (string_length : String → ℕ) (trim : String → String) where
  step_lines :
      (sku : ℕ) (c : Command) (w : WorkOrder) {v : WorkOrder}
      → run_command string_length trim c w ≡ ok v
      → lines_of sku w.lines ≤ 1
      → lines_of sku v.lines ≤ 1
  unfolding run_command remove_photo submit_for_review return_to_in_progress start_closing
      finalize_close revert_closing reopen cancel update_consumption remove_consumption
      add_photo_before add_photo_after validate_photo_ref
  step_lines sku (photographs_before photo now) w e h = ground arith
  step_lines sku (photographs_after photo now) w e h = ground arith
  step_lines sku (removes_photo id now) w e h = ground arith
  step_lines sku (consumes at amount now new_id reason comment) w e h =
      consume_lines sku at amount now new_id reason comment w e h
  step_lines sku (updates id amount now reason comment) w e h =
      elim (Option-cases (find_line id w.lines)) [
        | inl missing ↦ let e' = rw missing at e in ground arith
        | inr (l, found) ↦
            let e' = rw found at e in
            ground (arith, lines_of-update_by_id sku id amount reason comment w.lines)
      ]
  step_lines sku (removes_line id now) w e h = ground (arith, lines_of-drop_line sku id w.lines)
  step_lines sku (submits by now) w e h = ground arith
  step_lines sku (returns by reason now) w e h = ground arith
  step_lines sku (starts_closing now) w e h = ground arith
  step_lines sku (finalizes now) w e h = ground arith
  step_lines sku (reverts reason now) w e h = ground arith
  step_lines sku (reopens by reason now) w e h = ground arith
  step_lines sku (cancels reason by now) w e h = ground arith

  past_lines :
      (sku : ℕ) {w v : WorkOrder}
      → Reach string_length trim w v
      → lines_of sku w.lines ≤ 1
      → lines_of sku v.lines ≤ 1
  past_lines sku here h = h
  past_lines sku (next c past e) h = step_lines sku c _ e (past_lines sku past h)

  opened_lines :
      (id_gen : ℕ → ℕ) (appointment branch master client vehicle : ℕ)
      (services : List ServiceSnapshot) (norms : List MaterialNorm) (now sku : ℕ) {w : WorkOrder}
      → open_from_appointment id_gen appointment branch master client vehicle services norms now
        ≡ ok w
      → lines_of sku w.lines ≡ norms_of sku norms
  unfolding open_from_appointment
  opened_lines id_gen appointment branch master client vehicle services norms now sku e =
      ground (arith, lines_of-draft_lines sku id_gen 0 norms)

  -- A work order that was opened with at most one norm of the SKU has, after any successful calls, at
  -- most one line of that SKU: consuming it again updates its line.
  pub one_line_of_sku :
      (id_gen : ℕ → ℕ) (appointment branch master client vehicle : ℕ)
      (services : List ServiceSnapshot) (norms : List MaterialNorm) (now sku : ℕ) {w v : WorkOrder}
      → open_from_appointment id_gen appointment branch master client vehicle services norms now
        ≡ ok w
      → Reach string_length trim w v
      → norms_of sku norms ≤ 1
      → lines_of sku v.lines ≤ 1
  one_line_of_sku id_gen appointment branch master client vehicle services norms now sku e past
        one =
      let start =
        opened_lines id_gen appointment branch master client vehicle services norms now sku e in
      past_lines sku past (omega (arith, start, one))

-- ===== src/WorkOrder/Operations/Closing.antt =====
-- What a work order that is closed, or being closed, has passed.
use detailing_studio.Prelude.{
  ℕ, ◌*◌, ◌≡◌, refl, ap, arith, ltb, leb, ◌==◌, ◌||◌, Option, none, some, Bool, true, false, not,
  ◌&&◌, List, [], ◌∷◌, String, ok, if◌then◌else◌, Option-cases, Bool-cases, inl, inr, ◌⊎◌,
}
use detailing_studio.WorkOrder.Data.{
  PhotoRef, WorkOrder, WorkOrderStatus, ServiceSnapshot, MaterialNorm, ConsumptionLine, closing,
  closed, validate_photo_ref,
}
use detailing_studio.WorkOrder.Deviation.{
  validate, no_photos, no_reason, unexplained, line_violations, calculate_deviation,
}
use detailing_studio.Shared.Quantity.{Quantity}
use detailing_studio.WorkOrder.Operations.{
  find_by_sku, find_line, no_violations, open_from_appointment, add_photo_before, add_photo_after,
  remove_photo, add_consumption, update_consumption, remove_consumption, submit_for_review,
  return_to_in_progress, start_closing, finalize_close, revert_closing, reopen, cancel,
}
use detailing_studio.WorkOrder.Operations.Lifecycle.{
  Command, photographs_before, photographs_after, removes_photo, consumes, updates, removes_line,
  submits, returns, starts_closing, finalizes, reverts, reopens, cancels, run_command, Reach, here,
  next,
}

-- The order is closed, or it is being closed.
abbrev pub is_past_review : WorkOrderStatus → Bool
is_past_review closing = true
is_past_review closed = true
is_past_review s = false

-- The number of the amount is at most 15 percent above and at most 15 percent below that of the
-- norm; for a norm of 0, it is 0.
abbrev pub is_near : ℕ → ℕ → Bool
is_near actual norm =
    if norm == 0
    then actual == 0
    else leb (100 * actual) (115 * norm) && leb (85 * norm) (100 * actual)

abbrev pub has_reason : (String → ℕ) → Option String → Bool
has_reason string_length none = false
has_reason string_length (some s) = ltb 0 (string_length s)

-- Every line is near its norm, number by number, or has a reason.
abbrev pub all_explained : (String → ℕ) → List ConsumptionLine → Bool
all_explained string_length [] = true
all_explained string_length (l ∷ ls) =
    (has_reason string_length l.deviation_reason
      || is_near l.actual_amount.amount l.norm_amount.amount)
    && all_explained string_length ls

-- There are photos of both kinds, and every line is near its norm or has a reason.
abbrev pub is_documented : (String → ℕ) → WorkOrder → Bool
is_documented string_length w =
    not (no_photos w.photos_before)
    && not (no_photos w.photos_after)
    && all_explained string_length w.lines

near_lem :
    (actual norm : Quantity)
    → (calculate_deviation actual norm).exceeds_threshold ≡ not (is_near actual.amount norm.amount)
unfolding calculate_deviation
near_lem actual norm = ground arith

has_reason_lem :
    (string_length : String → ℕ) (reason : Option String)
    → no_reason string_length reason ≡ not (has_reason string_length reason)
has_reason_lem string_length none = refl
has_reason_lem string_length (some s) = ground arith

explained_lem :
    (string_length : String → ℕ) (l : ConsumptionLine)
    → not (unexplained string_length l) ≡ (
        has_reason string_length l.deviation_reason
        || is_near l.actual_amount.amount l.norm_amount.amount)
explained_lem string_length l =
    rw (near_lem l.actual_amount l.norm_amount, has_reason_lem string_length l.deviation_reason)
      (de_morgan (is_near l.actual_amount.amount l.norm_amount.amount)
        (has_reason string_length l.deviation_reason))
  where
    de_morgan : (a b : Bool) → not (not a && not b) ≡ (b || a)
    de_morgan true true = refl
    de_morgan true false = refl
    de_morgan false true = refl
    de_morgan false false = refl

module _ (string_length : String → ℕ) where
  line_violations_lem :
      (ls : List ConsumptionLine)
      → no_violations (line_violations string_length ls) ≡ all_explained string_length ls
  unfolding line_violations
  line_violations_lem [] = refl
  line_violations_lem (l ∷ ls) = elim (Bool-cases (unexplained string_length l)) [
    | inl bad ↦ let missed = ap not bad in rw (bad, ← explained_lem string_length l, missed) refl
    | inr fine ↦
        let met = ap not fine in
        rw (fine, ← explained_lem string_length l, met) (line_violations_lem ls)
  ]

  pub validate_lem :
      (w : WorkOrder) → no_violations (validate string_length w) ≡ is_documented string_length w
  unfolding validate
  validate_lem w = elim (Bool-cases (no_photos w.photos_before)) [
    | inl none_before ↦ rw none_before refl
    | inr some_before ↦ elim (Bool-cases (no_photos w.photos_after)) [
      | inl none_after ↦ rw (some_before, none_after) refl
      | inr some_after ↦ rw (some_before, some_after) (line_violations_lem w.lines)
    ]
  ]

  abbrev passed_review : WorkOrder → Bool
  passed_review w = if is_past_review w.status then is_documented string_length w else true

module _ (string_length : String → ℕ) (trim : String → String) where
  photograph-review :
      (photo : PhotoRef) (now : ℕ) (w : WorkOrder) {v : WorkOrder}
      → add_photo_before string_length photo now w ≡ ok v
        ⊎ add_photo_after string_length photo now w ≡ ok v
      → is_past_review v.status ≡ false
  unfolding add_photo_before add_photo_after validate_photo_ref
  photograph-review photo now w (inl e) = ground arith
  photograph-review photo now w (inr e) = ground arith

  edit-review :
      (c : Command) (w : WorkOrder) {v : WorkOrder}
      → run_command string_length trim c w ≡ ok v
      → passed_review string_length w ≡ true
      → passed_review string_length v ≡ true
  unfolding run_command remove_photo submit_for_review return_to_in_progress start_closing
      finalize_close revert_closing reopen cancel add_consumption update_consumption
      remove_consumption
  edit-review (photographs_before photo now) w e h = rw (photograph-review photo now w (inl e)) refl
  edit-review (photographs_after photo now) w e h = rw (photograph-review photo now w (inr e)) refl
  edit-review (removes_photo id now) w e h = ground arith
  edit-review (consumes sku amount now new_id reason comment) w e h =
      elim (Option-cases (find_by_sku sku w.lines)) [
        | inl fresh ↦ let e' = rw fresh at e in ground arith
        | inr (l, found) ↦ let e' = rw found at e in ground arith
      ]
  edit-review (updates id amount now reason comment) w e h =
      elim (Option-cases (find_line id w.lines)) [
        | inl missing ↦ let e' = rw missing at e in ground arith
        | inr (l, found) ↦ let e' = rw found at e in ground arith
      ]
  edit-review (removes_line id now) w e h = ground arith
  edit-review (submits by now) w e h = ground arith
  edit-review (returns by reason now) w e h = ground arith
  edit-review (starts_closing now) w e h = ground (arith, validate_lem string_length w)
  edit-review (finalizes now) w e h = ground arith
  edit-review (reverts reason now) w e h = ground arith
  edit-review (reopens by reason now) w e h = ground arith
  edit-review (cancels reason by now) w e h = ground arith

  past_review :
      {w v : WorkOrder}
      → Reach string_length trim w v
      → passed_review string_length w ≡ true
      → passed_review string_length v ≡ true
  past_review here h = h
  past_review (next c past e) h = edit-review c _ e (past_review past h)

  opened-review :
      (id_gen : ℕ → ℕ) (appointment branch master client vehicle : ℕ)
      (services : List ServiceSnapshot) (norms : List MaterialNorm) (now : ℕ) {w : WorkOrder}
      → open_from_appointment id_gen appointment branch master client vehicle services norms now
        ≡ ok w
      → passed_review string_length w ≡ true
  unfolding open_from_appointment
  opened-review id_gen appointment branch master client vehicle services norms now e = ground arith

  -- A work order that was opened and is closed, or is being closed, after any successful calls has a
  -- photo of each kind, and each of its lines has a reason or an amount whose bare number, whatever
  -- the units, is within 15 percent of the number of its norm, or 0 where that is 0.
  pub closed_is_documented :
      (id_gen : ℕ → ℕ) (appointment branch master client vehicle : ℕ)
      (services : List ServiceSnapshot) (norms : List MaterialNorm) (now : ℕ) {w v : WorkOrder}
      → open_from_appointment id_gen appointment branch master client vehicle services norms now
        ≡ ok w
      → Reach string_length trim w v
      → is_past_review v.status ≡ true
      → is_documented string_length v ≡ true
  closed_is_documented id_gen appointment branch master client vehicle services norms now e past
        done =
      let start =
        opened-review id_gen appointment branch master client vehicle services norms now e in
      let last = past_review past start in rw done at last

-- ===== src/WorkOrder/Operations/Statuses.antt =====
-- Which statuses a call leads to.
use detailing_studio.Prelude.{ℕ, ◌≡◌, arith, Bool, true, ◌||◌, String, ok, Option-cases, inl, inr}
use detailing_studio.WorkOrder.Data.{
  WorkOrder, WorkOrderStatus, in_progress, closing, validate_photo_ref,
}
use detailing_studio.WorkOrder.Operations.{
  status_eq, can_transition, add_photo_before, add_photo_after, remove_photo, find_by_sku,
  find_line, add_consumption, update_consumption, remove_consumption, submit_for_review,
  return_to_in_progress, start_closing, finalize_close, revert_closing, reopen, cancel,
}
use detailing_studio.WorkOrder.Operations.Lifecycle.{
  Command, photographs_before, photographs_after, removes_photo, consumes, updates, removes_line,
  submits, returns, starts_closing, finalizes, reverts, reopens, cancels, run_command,
}

-- A change of status that the table allows, or the one that it does not list: an order in progress
-- starts closing without a review.
abbrev pub may_follow : WorkOrderStatus → WorkOrderStatus → Bool
may_follow in_progress closing = true
may_follow s t = status_eq s t || can_transition s t

module _ (string_length : String → ℕ) (trim : String → String) where
  -- A call that succeeds leaves the status as it was, or changes it by the table of transitions; the
  -- one change beside the table takes an order in progress to closing.
  pub run_command-may_follow :
      (c : Command) (w : WorkOrder) {v : WorkOrder}
      → run_command string_length trim c w ≡ ok v
      → may_follow w.status v.status ≡ true
  unfolding run_command remove_photo submit_for_review return_to_in_progress start_closing
      finalize_close revert_closing reopen cancel add_consumption update_consumption
      remove_consumption add_photo_before add_photo_after validate_photo_ref
  run_command-may_follow (photographs_before photo now) w e = ground arith
  run_command-may_follow (photographs_after photo now) w e = ground arith
  run_command-may_follow (removes_photo id now) w e = ground arith
  run_command-may_follow (consumes sku amount now new_id reason comment) w e =
      elim (Option-cases (find_by_sku sku w.lines)) [
        | inl fresh ↦ let e' = rw fresh at e in ground arith
        | inr (l, found) ↦ let e' = rw found at e in ground arith
      ]
  run_command-may_follow (updates id amount now reason comment) w e =
      elim (Option-cases (find_line id w.lines)) [
        | inl missing ↦ let e' = rw missing at e in ground arith
        | inr (l, found) ↦ let e' = rw found at e in ground arith
      ]
  run_command-may_follow (removes_line id now) w e = ground arith
  run_command-may_follow (submits by now) w e = ground arith
  run_command-may_follow (returns by reason now) w e = ground arith
  run_command-may_follow (starts_closing now) w e = ground arith
  run_command-may_follow (finalizes now) w e = ground arith
  run_command-may_follow (reverts reason now) w e = ground arith
  run_command-may_follow (reopens by reason now) w e = ground arith
  run_command-may_follow (cancels reason by now) w e = ground arith

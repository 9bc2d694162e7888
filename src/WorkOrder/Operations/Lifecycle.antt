-- ===== src/WorkOrder/Operations/Lifecycle.antt =====
-- The life of a work order, over all its methods.
use detailing_studio.Prelude.{
  ℕ, suc, ◌≤◌, ◌≡◌, refl, ap, arith, Bool, true, false, Option, none, some, List, [], ◌∷◌, ◌++◌,
  length, String, Result, ok, Option-cases, inl, inr,
}
use detailing_studio.Shared.Quantity.{Quantity}
use detailing_studio.WorkOrder.Data.{
  WorkOrder, WorkOrderError, PhotoRef, ServiceSnapshot, MaterialNorm, closed, cancelled,
  validate_photo_ref,
}
use detailing_studio.WorkOrder.Operations.{
  is_empty, status_eq, max_photos_per_type, drop_photo, find_by_sku, find_line,
  open_from_appointment, add_photo_before, add_photo_after, remove_photo, add_consumption,
  update_consumption, remove_consumption, submit_for_review, return_to_in_progress, start_closing,
  finalize_close, revert_closing, reopen, cancel,
}

pub data Command : Type 0 where
  photographs_before photographs_after : PhotoRef → ℕ → Command
  removes_photo : ℕ → ℕ → Command
  consumes : ℕ → Quantity → ℕ → ℕ → Option String → Option String → Command
  updates : ℕ → Quantity → ℕ → Option String → Option String → Command
  removes_line : ℕ → ℕ → Command
  submits : ℕ → ℕ → Command
  returns : ℕ → String → ℕ → Command
  starts_closing finalizes : ℕ → Command
  reverts : String → ℕ → Command
  reopens : ℕ → String → ℕ → Command
  cancels : String → ℕ → ℕ → Command

abbrev is_given {ℓ} : {A : Type ℓ} → Option A → Bool
is_given none = false
is_given (some n) = true

-- At most twenty photos of each kind; services; the time of closing just where the order is closed,
-- and the reason of the cancellation just where it is cancelled.
pub record IsValid (w : WorkOrder) : Type 0 where
  pub before_bound : length w.photos_before ≤ max_photos_per_type
  pub after_bound : length w.photos_after ≤ max_photos_per_type
  pub closed_time : is_given w.closed_at ≡ status_eq w.status closed
  pub cancel_reason : is_given w.cancellation_reason ≡ status_eq w.status cancelled
  pub has_services : is_empty w.services ≡ false

length-drop_photo : (id : ℕ) (ps : List PhotoRef) → length (drop_photo id ps) ≤ length ps
unfolding drop_photo
length-drop_photo id [] = omega arith
length-drop_photo id (p ∷ ps) = ground (arith, length-drop_photo id ps)

length-snoc : (ps : List PhotoRef) (p : PhotoRef) → length (ps ++ p ∷ []) ≡ suc (length ps)
length-snoc [] p = refl
length-snoc (q ∷ ps) p = ap suc (length-snoc ps p)

module _ (string_length : String → ℕ) (trim : String → String) where
  unfoldable pub run_command : Command → WorkOrder → Result WorkOrderError WorkOrder
  run_command (photographs_before photo now) w = add_photo_before string_length photo now w
  run_command (photographs_after photo now) w = add_photo_after string_length photo now w
  run_command (removes_photo id now) w = remove_photo id now w
  run_command (consumes sku amount now new_id reason comment) w =
      add_consumption sku amount now new_id reason comment w
  run_command (updates id amount now reason comment) w =
      update_consumption id amount now reason comment w
  run_command (removes_line id now) w = remove_consumption id now w
  run_command (submits by now) w = submit_for_review by now w
  run_command (returns by reason now) w = return_to_in_progress by reason now w
  run_command (starts_closing now) w = start_closing string_length now w
  run_command (finalizes now) w = finalize_close now w
  run_command (reverts reason now) w = revert_closing reason now w
  run_command (reopens by reason now) w = reopen string_length trim by reason now w
  run_command (cancels reason by now) w = cancel reason by now w

  pub data Reach (w : WorkOrder) : WorkOrder → Type 0 where
    here : Reach w w
    next : {u v : WorkOrder} (c : Command) → Reach w u → run_command c u ≡ ok v → Reach w v

  photograph_before-IsValid :
      (photo : PhotoRef) (now : ℕ) (w : WorkOrder) {v : WorkOrder}
      → add_photo_before string_length photo now w ≡ ok v
      → IsValid w
      → IsValid v
  unfolding add_photo_before validate_photo_ref
  photograph_before-IsValid photo now w e v = ground (arith, length-snoc w.photos_before photo)

  photograph_after-IsValid :
      (photo : PhotoRef) (now : ℕ) (w : WorkOrder) {v : WorkOrder}
      → add_photo_after string_length photo now w ≡ ok v
      → IsValid w
      → IsValid v
  unfolding add_photo_after validate_photo_ref
  photograph_after-IsValid photo now w e v = ground (arith, length-snoc w.photos_after photo)

  run_command-IsValid :
      (c : Command) (w : WorkOrder) {v : WorkOrder} → run_command c w ≡ ok v → IsValid w → IsValid v
  unfolding run_command remove_photo submit_for_review return_to_in_progress start_closing
      finalize_close revert_closing reopen cancel add_consumption update_consumption
      remove_consumption
  run_command-IsValid (photographs_before photo now) w e v =
      photograph_before-IsValid photo now w e v
  run_command-IsValid (photographs_after photo now) w e v = photograph_after-IsValid photo now w e v
  run_command-IsValid (removes_photo id now) w e v =
      ground (arith, length-drop_photo id w.photos_before, length-drop_photo id w.photos_after)
  run_command-IsValid (consumes sku amount now new_id reason comment) w e v =
      elim (Option-cases (find_by_sku sku w.lines)) [
        | inl fresh ↦ let e' = rw fresh at e in ground arith
        | inr (l, found) ↦ let e' = rw found at e in ground arith
      ]
  run_command-IsValid (updates id amount now reason comment) w e v =
      elim (Option-cases (find_line id w.lines)) [
        | inl missing ↦ let e' = rw missing at e in ground arith
        | inr (l, found) ↦ let e' = rw found at e in ground arith
      ]
  run_command-IsValid (removes_line id now) w e v = ground arith
  run_command-IsValid (submits by now) w e v = ground arith
  run_command-IsValid (returns by reason now) w e v = ground arith
  run_command-IsValid (starts_closing now) w e v = ground arith
  run_command-IsValid (finalizes now) w e v = ground arith
  run_command-IsValid (reverts reason now) w e v = ground arith
  run_command-IsValid (reopens by reason now) w e v = ground arith
  run_command-IsValid (cancels reason by now) w e v = ground arith

  reach-IsValid : {w v : WorkOrder} → Reach w v → IsValid w → IsValid v
  reach-IsValid here v = v
  reach-IsValid (next c h e) v = run_command-IsValid c _ e (reach-IsValid h v)

  -- A work order that was opened has, after any successful calls, at most twenty photos of each kind
  -- and a service; it has a time of closing just where it is closed, and a reason of its cancellation
  -- just where it is cancelled.
  pub work_order_history-IsValid :
      (id_gen : ℕ → ℕ) (appointment branch master client vehicle : ℕ)
      (services : List ServiceSnapshot) (norms : List MaterialNorm) (now : ℕ) {w v : WorkOrder}
      → open_from_appointment id_gen appointment branch master client vehicle services norms now
        ≡ ok w
      → Reach w v
      → IsValid v
  unfolding open_from_appointment
  work_order_history-IsValid id_gen appointment branch master client vehicle services norms now e
        h =
      reach-IsValid h (ground arith)

-- ===== src/WorkOrder/Operations.antt =====
-- libs/backend/work-order/domain/src/work-order: the methods of work-order.aggregate.ts, and the
-- table of state-transitions.ts. What the generator of ids gives is an argument.
pub mod Lines
pub mod Consumed
pub mod Statuses
pub mod Lifecycle
pub mod Closing
pub mod Liveness
use detailing_studio.Prelude.{
  ℕ, suc, ◌+◌, Bool, true, false, not, ◌&&◌, Option, none, some, List, [], ◌∷◌, ◌++◌, map, String,
  length, ltb, leb, ◌==◌, if◌then◌else◌, any, Result, ok, err, throw_if, ◌>>=◌, ◌>>◌,
}
use detailing_studio.Shared.Quantity.{Quantity}
use detailing_studio.WorkOrder.Data.{
  WorkOrderStatus, opened, in_progress, awaiting_review, closing, closed, cancelled, PhotoType,
  before, after, PhotoRef, Violation, WorkOrderError, invalid_state_transition,
  photo_limit_exceeded, consumption_line_not_found, photo_not_found, services_empty,
  empty_reopen_reason, work_order_closing_validation, validate_photo_ref, ServiceSnapshot,
  MaterialNorm, ConsumptionLine, draft, create, update, current_deviation_ratio, ClosedLine,
  work_order_opened, work_order_photo_added, work_order_photo_removed, work_order_consumption_added,
  work_order_consumption_updated, work_order_consumption_removed, work_order_submitted_for_review,
  work_order_returned_to_in_progress, work_order_reopened, work_order_cancelled,
  work_order_closing_started, work_order_closing_reverted, work_order_closed, WorkOrder, add_event,
}
use detailing_studio.WorkOrder.Deviation.{validate}

abbrev pub max_photos_per_type : ℕ
max_photos_per_type = 20

-- `===` on the members of the enum.
abbrev pub status_eq : WorkOrderStatus → WorkOrderStatus → Bool
status_eq opened opened = true
status_eq in_progress in_progress = true
status_eq awaiting_review awaiting_review = true
status_eq closing closing = true
status_eq closed closed = true
status_eq cancelled cancelled = true
status_eq s t = false

abbrev pub includes : List WorkOrderStatus → WorkOrderStatus → Bool
includes [] s = false
includes (t ∷ ts) s = if status_eq t s then true else includes ts s

-- The table of `ALLOWED_TRANSITIONS`.
abbrev pub allowed_transitions : WorkOrderStatus → List WorkOrderStatus
allowed_transitions opened = in_progress ∷ cancelled ∷ []
allowed_transitions in_progress = awaiting_review ∷ cancelled ∷ []
allowed_transitions awaiting_review = closing ∷ in_progress ∷ cancelled ∷ []
allowed_transitions closing = closed ∷ in_progress ∷ cancelled ∷ []
allowed_transitions closed = in_progress ∷ []
allowed_transitions cancelled = []

abbrev pub can_transition : WorkOrderStatus → WorkOrderStatus → Bool
can_transition from to = includes (allowed_transitions from) to

abbrev pub assert_transition : WorkOrderStatus → WorkOrder → Result WorkOrderError (Unit {0})
assert_transition to w =
    throw_if (not (can_transition w.status to)) (invalid_state_transition w.status to)

abbrev first_or_opened : List WorkOrderStatus → WorkOrderStatus
first_or_opened [] = opened
first_or_opened (s ∷ ss) = s

abbrev pub assert_status_in : List WorkOrderStatus → WorkOrder → Result WorkOrderError (Unit {0})
assert_status_in allowed w =
    throw_if (not (includes allowed w.status))
      (invalid_state_transition w.status (first_or_opened allowed))

abbrev pub in_progress_or : WorkOrderStatus → WorkOrderStatus
in_progress_or opened = in_progress
in_progress_or s = s

abbrev pub auto_transition_to_in_progress : WorkOrder → WorkOrder
auto_transition_to_in_progress w = record w { status = in_progress_or w.status }

abbrev pub editable : List WorkOrderStatus
editable = opened ∷ in_progress ∷ awaiting_review ∷ []

-- A line for each norm, with the ids that are generated from the n-th on.
unfoldable pub draft_lines : (ℕ → ℕ) → ℕ → List MaterialNorm → List ConsumptionLine
draft_lines id_gen n [] = []
draft_lines id_gen n (m ∷ ms) =
    draft (id_gen n) m.sku_id m.norm_amount ∷ draft_lines id_gen (suc n) ms

abbrev pub is_empty : List ServiceSnapshot → Bool
is_empty [] = true
is_empty (s ∷ ss) = false

-- The lines take the first ids, the work order the next one.
unfoldable pub open_from_appointment :
    (ℕ → ℕ)
    → ℕ
    → ℕ
    → ℕ
    → ℕ
    → ℕ
    → List ServiceSnapshot
    → List MaterialNorm
    → ℕ
    → Result WorkOrderError WorkOrder
open_from_appointment id_gen appointment branch master client vehicle services norms opened_at = do
  throw_if (is_empty services) services_empty
  ok (
      add_event
        (work_order_opened (id_gen (length norms)) appointment branch master client vehicle services
          norms opened_at)
        (record {
          id = id_gen (length norms);
          appointment_id = appointment;
          branch_id = branch;
          master_id = master;
          client_id = client;
          vehicle_id = vehicle;
          services = services;
          norms = norms;
          lines = draft_lines id_gen 0 norms;
          photos_before = [];
          photos_after = [];
          status = opened;
          opened_at = opened_at;
          closed_at = none;
          cancellation_reason = none;
          events = [];
        }))

abbrev pub has_photo : ℕ → List PhotoRef → Bool
has_photo id = any (λ p. p.id == id)

-- `findIndex` and `splice`.
unfoldable pub drop_photo : ℕ → List PhotoRef → List PhotoRef
drop_photo id [] = []
drop_photo id (p ∷ ps) = if p.id == id then ps else p ∷ drop_photo id ps

unfoldable pub remove_photo : ℕ → ℕ → WorkOrder → Result WorkOrderError WorkOrder
remove_photo id now w = do
  assert_status_in editable w
  (if has_photo id w.photos_before
      then ok (
          add_event (work_order_photo_removed w.id id before now)
            (record w { photos_before = drop_photo id w.photos_before }))
      else if has_photo id w.photos_after
      then ok (
          add_event (work_order_photo_removed w.id id after now)
            (record w { photos_after = drop_photo id w.photos_after }))
      else err (photo_not_found id))

-- `find` by the SKU.
unfoldable pub find_by_sku : ℕ → List ConsumptionLine → Option ConsumptionLine
find_by_sku sku [] = none
find_by_sku sku (l ∷ ls) = if l.sku_id == sku then some l else find_by_sku sku ls

unfoldable pub find_line : ℕ → List ConsumptionLine → Option ConsumptionLine
find_line id [] = none
find_line id (l ∷ ls) = if l.id == id then some l else find_line id ls

-- The call on the object that was found by its SKU, or by its id, changes it in the list.
unfoldable pub update_by_sku :
    ℕ → (ConsumptionLine → ConsumptionLine) → List ConsumptionLine → List ConsumptionLine
update_by_sku sku f [] = []
update_by_sku sku f (l ∷ ls) = if l.sku_id == sku then f l ∷ ls else l ∷ update_by_sku sku f ls

unfoldable pub update_by_id :
    ℕ → (ConsumptionLine → ConsumptionLine) → List ConsumptionLine → List ConsumptionLine
update_by_id id f [] = []
update_by_id id f (l ∷ ls) = if l.id == id then f l ∷ ls else l ∷ update_by_id id f ls

abbrev consume_line :
    Option ConsumptionLine
    → ℕ
    → Quantity
    → ℕ
    → ℕ
    → Option String
    → Option String
    → WorkOrder
    → WorkOrder
consume_line (some l) sku amount now new_id reason comment w =
    add_event (work_order_consumption_updated w.id l.id amount now)
      (record w { lines = update_by_sku sku (update amount reason comment) w.lines })
consume_line none sku amount now new_id reason comment w =
    add_event (work_order_consumption_added w.id new_id sku amount now)
      (record w { lines = w.lines ++ create new_id sku amount reason comment ∷ [] })

unfoldable pub add_consumption :
    ℕ
    → Quantity
    → ℕ
    → ℕ
    → Option String
    → Option String
    → WorkOrder
    → Result WorkOrderError WorkOrder
add_consumption sku amount now new_id reason comment w = do
  assert_status_in (opened ∷ in_progress ∷ []) w
  ok (
      auto_transition_to_in_progress
        (consume_line (find_by_sku sku w.lines) sku amount now new_id reason comment w))

abbrev update_found :
    Option ConsumptionLine
    → ℕ
    → Quantity
    → ℕ
    → Option String
    → Option String
    → WorkOrder
    → Result WorkOrderError WorkOrder
update_found none id amount now reason comment w = err (consumption_line_not_found id)
update_found (some l) id amount now reason comment w = ok (
    add_event (work_order_consumption_updated w.id id amount now)
      (record w { lines = update_by_id id (update amount reason comment) w.lines }))

unfoldable pub update_consumption :
    ℕ → Quantity → ℕ → Option String → Option String → WorkOrder → Result WorkOrderError WorkOrder
update_consumption id amount now reason comment w = do
  assert_status_in editable w
  update_found (find_line id w.lines) id amount now reason comment w

abbrev has_line : ℕ → List ConsumptionLine → Bool
has_line id = any (λ l. l.id == id)

unfoldable pub drop_line : ℕ → List ConsumptionLine → List ConsumptionLine
drop_line id [] = []
drop_line id (l ∷ ls) = if l.id == id then ls else l ∷ drop_line id ls

unfoldable pub remove_consumption : ℕ → ℕ → WorkOrder → Result WorkOrderError WorkOrder
remove_consumption id now w = do
  assert_status_in editable w
  throw_if (not (has_line id w.lines)) (consumption_line_not_found id)
  ok (
      add_event (work_order_consumption_removed w.id id now)
        (record w { lines = drop_line id w.lines }))

unfoldable pub submit_for_review : ℕ → ℕ → WorkOrder → Result WorkOrderError WorkOrder
submit_for_review by now w = do
  assert_transition awaiting_review w
  ok (
      add_event (work_order_submitted_for_review w.id by now)
        (record w { status = awaiting_review }))

unfoldable pub return_to_in_progress : ℕ → String → ℕ → WorkOrder → Result WorkOrderError WorkOrder
return_to_in_progress by reason now w = do
  assert_transition in_progress w
  throw_if (not (status_eq w.status awaiting_review))
      (invalid_state_transition w.status in_progress)
  ok (
      add_event (work_order_returned_to_in_progress w.id by reason now)
        (record w { status = in_progress }))

abbrev pub closed_line : ConsumptionLine → ClosedLine
closed_line l = record {
  line_id = l.id;
  sku_id = l.sku_id;
  actual_amount = l.actual_amount;
  norm_amount = l.norm_amount;
  deviation_ratio = current_deviation_ratio l;
}

unfoldable pub finalize_close : ℕ → WorkOrder → Result WorkOrderError WorkOrder
finalize_close closed_at w = do
  assert_status_in (closing ∷ []) w
  ok (
      add_event
        (work_order_closed w.id w.appointment_id w.branch_id w.master_id w.client_id w.vehicle_id
          w.services (map closed_line w.lines) (length w.photos_before) (length w.photos_after)
          closed_at)
        (record w { status = closed; closed_at = some closed_at }))

unfoldable pub revert_closing : String → ℕ → WorkOrder → Result WorkOrderError WorkOrder
revert_closing reason now w = do
  assert_status_in (closing ∷ []) w
  ok (add_event (work_order_closing_reverted w.id reason now) (record w { status = in_progress }))

unfoldable pub cancel : String → ℕ → ℕ → WorkOrder → Result WorkOrderError WorkOrder
cancel reason by now w = do
  assert_status_in (opened ∷ in_progress ∷ awaiting_review ∷ closing ∷ []) w
  ok (
      add_event (work_order_cancelled w.id reason by now)
        (record w { status = cancelled; cancellation_reason = some reason }))

abbrev no_violations : List Violation → Bool
no_violations [] = true
no_violations (v ∷ vs) = false

module _ (string_length : String → ℕ) where
  unfoldable pub add_photo_before : PhotoRef → ℕ → WorkOrder → Result WorkOrderError WorkOrder
  add_photo_before photo now w = do
    assert_status_in editable w
    validate_photo_ref string_length photo
    throw_if (leb max_photos_per_type (length w.photos_before))
        (photo_limit_exceeded before max_photos_per_type)
    ok (
        add_event (work_order_photo_added w.id photo.id before photo.url now) (
          auto_transition_to_in_progress
            (record w { photos_before = w.photos_before ++ photo ∷ [] })))

  unfoldable pub add_photo_after : PhotoRef → ℕ → WorkOrder → Result WorkOrderError WorkOrder
  add_photo_after photo now w = do
    assert_status_in editable w
    validate_photo_ref string_length photo
    throw_if (leb max_photos_per_type (length w.photos_after))
        (photo_limit_exceeded after max_photos_per_type)
    ok (
        add_event (work_order_photo_added w.id photo.id after photo.url now) (
          auto_transition_to_in_progress
            (record w { photos_after = w.photos_after ++ photo ∷ [] })))

  unfoldable pub start_closing : ℕ → WorkOrder → Result WorkOrderError WorkOrder
  start_closing now w = do
    assert_status_in (in_progress ∷ awaiting_review ∷ []) w
    throw_if (not (no_violations (validate string_length w)))
        (work_order_closing_validation (validate string_length w))
    ok (add_event (work_order_closing_started w.id now) (record w { status = closing }))

  -- `trim` is the method of a string.
  unfoldable pub reopen :
      (String → String) → ℕ → String → ℕ → WorkOrder → Result WorkOrderError WorkOrder
  reopen trim by reason now w = do
    assert_transition in_progress w
    throw_if (not (status_eq w.status closed)) (invalid_state_transition w.status in_progress)
    throw_if (string_length (trim reason) == 0) empty_reopen_reason
    ok (
        add_event (work_order_reopened w.id by reason now)
          (record w { status = in_progress; closed_at = none }))

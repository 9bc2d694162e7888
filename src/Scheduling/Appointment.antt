-- ===== src/Scheduling/Appointment.antt =====
-- libs/backend/scheduling/domain/src/appointment: the methods of appointment.aggregate.ts, and
-- state-transitions.ts.
mod Data
pub mod Lifecycle
mod Tests
unfoldable pub use Data.*
use detailing_studio.Prelude.{
  ℕ, ◌+◌, ◌-◌, ◌*◌, Bool, true, false, not, ◌&&◌, Option, none, some, List, [], ◌∷◌, ◌++◌, map,
  String, ltb, leb, if◌then◌else◌, any, sum_by, Result, ok, err, ◌>>=◌, ◌>>◌, throw_if,
}
use detailing_studio.Shared.Money.{Money}

abbrev add_event : AppointmentEvent → Appointment → Appointment
add_event e a = record a { events = a.events ++ e ∷ [] }

-- `ALLOWED_TRANSITIONS[from].includes(to)`.
abbrev pub can_transition : AppointmentStatus → AppointmentStatus → Bool
can_transition pending_confirmation confirmed = true
can_transition pending_confirmation cancelled = true
can_transition confirmed in_progress = true
can_transition confirmed cancelled = true
can_transition confirmed no_show = true
can_transition in_progress completed = true
can_transition _ _ = false

abbrev assert_transition : AppointmentStatus → Appointment → Result AppointmentError (Unit {0})
assert_transition to a =
    throw_if (not (can_transition a.status to)) (invalid_state_transition a.status to)

abbrev is_open : AppointmentStatus → Bool
is_open pending_confirmation = true
is_open confirmed = true
is_open _ = false

abbrev is_confirmed : AppointmentStatus → Bool
is_confirmed confirmed = true
is_confirmed _ = false

-- `assertTransitionAllowed`, with the test of the list; the error always names `CANCELLED`.
abbrev assert_transition_allowed :
    (AppointmentStatus → Bool) → Appointment → Result AppointmentError (Unit {0})
assert_transition_allowed allowed a =
    throw_if (not (allowed a.status)) (invalid_state_transition a.status cancelled)

abbrev pub total_service_minutes : List AppointmentService → ℕ
total_service_minutes = sum_by (λ s. s.duration_minutes_snapshot)

abbrev pub ms_per_minute : ℕ
ms_per_minute = 60000

-- `(end - start) / 60_000 < totalServiceMinutes`.
abbrev validate_slot_duration :
    TimeSlot → List AppointmentService → Result AppointmentError (Unit {0})
validate_slot_duration slot services =
    throw_if (ltb (slot.end - slot.start) (total_service_minutes services * ms_per_minute))
      (slot_duration_too_short (slot.end - slot.start) (total_service_minutes services))

abbrev is_empty : List AppointmentService → Bool
is_empty [] = true
is_empty (s ∷ ss) = false

abbrev initial_status : CreationChannel → AppointmentStatus
initial_status guest = pending_confirmation
initial_status online = confirmed
initial_status manager = confirmed

unfoldable pub create : CreateAppointmentProps → Result AppointmentError Appointment
create props = do
  throw_if (is_empty props.services) services_empty
  validate_slot_duration props.slot props.services
  ok (record {
    id = props.id;
    client_id = props.client_id;
    vehicle_id = props.vehicle_id;
    branch_id = props.branch_id;
    bay_id = props.bay_id;
    master_id = props.master_id;
    services = props.services;
    slot = props.slot;
    status = initial_status props.created_via;
    cancellation_request = none;
    created_by = props.created_by;
    created_via = props.created_via;
    created_at = props.now;
    version = 0;
    events =
        appointment_created props (map service_snapshot props.services)
          (initial_status props.created_via)
        ∷ [];
  })

unfoldable pub confirm : ℕ → ℕ → Appointment → Result AppointmentError Appointment
confirm by now a = do
  assert_transition confirmed a
  ok (add_event (appointment_confirmed a.id by now) (record a { status = confirmed }))

-- An optional argument that is left out, and the old value.
abbrev or_old {ℓ} : {A : Type ℓ} → Option A → A → A
or_old none old = old
or_old (some new) old = new

unfoldable pub reschedule :
    TimeSlot
    → ℕ
    → ℕ
    → Option ℕ
    → Option (Option ℕ)
    → Appointment
    → Result AppointmentError Appointment
reschedule new_slot by now new_master_id new_bay_id a = do
  assert_transition_allowed is_open a
  validate_slot_duration new_slot a.services
  let master' = or_old new_master_id a.master_id
  let bay' = or_old new_bay_id a.bay_id
  ok (
      add_event
        (appointment_rescheduled a.id a.slot new_slot a.master_id master' a.bay_id bay' by now)
        (record a { slot = new_slot; master_id = master'; bay_id = bay' }))

unfoldable pub cancel : ℕ → String → ℕ → Appointment → Result AppointmentError Appointment
cancel by reason now a = do
  assert_transition_allowed is_open a
  ok (add_event (appointment_cancelled a.id reason by now) (record a { status = cancelled }))

unfoldable pub request_cancellation :
    ℕ → String → ℕ → ℕ → Appointment → Result AppointmentError Appointment
request_cancellation requested_by reason now id a = do
  assert_transition_allowed is_confirmed a
  ok (
      add_event (appointment_cancellation_requested a.id requested_by reason now) (record a {
        cancellation_request = some (record {
          id = id;
          requested_at = now;
          requested_by = requested_by;
          reason = reason;
          status = pending;
          decided_at = none;
          decided_by = none;
          decision_reason = none;
        });
      }))

-- `assertPendingCancellationRequest`, which hands the request on.
abbrev undecided :
    CancellationRequest → CancellationRequestStatus → Result AppointmentError CancellationRequest
undecided r pending = ok r
undecided r approved = err cancellation_request_already_decided
undecided r rejected = err cancellation_request_already_decided

abbrev pending_request : Option CancellationRequest → Result AppointmentError CancellationRequest
pending_request none = err no_cancellation_request
pending_request (some r) = undecided r r.status

unfoldable pub approve_cancellation : ℕ → ℕ → Appointment → Result AppointmentError Appointment
approve_cancellation by now a = do
  req ← pending_request a.cancellation_request
  ok (
      add_event (appointment_cancelled a.id req.reason by now) (
        add_event (appointment_cancellation_approved a.id by now) (record a {
          cancellation_request =
              some (record req { status = approved; decided_at = some now; decided_by = some by });
          status = cancelled;
        })))

unfoldable pub reject_cancellation :
    ℕ → String → ℕ → Appointment → Result AppointmentError Appointment
reject_cancellation by reason now a = do
  req ← pending_request a.cancellation_request
  ok (
      add_event (appointment_cancellation_rejected a.id by reason now) (record a {
        cancellation_request = some (record req {
          status = rejected;
          decided_at = some now;
          decided_by = some by;
          decision_reason = some reason;
        });
      }))

unfoldable pub start_work : ℕ → ℕ → Appointment → Result AppointmentError Appointment
start_work by now a = do
  assert_transition in_progress a
  ok (
      add_event
        (appointment_started a.id a.master_id a.branch_id a.client_id a.vehicle_id a.slot
          (map service_snapshot a.services) by now)
        (record a { status = in_progress }))

unfoldable pub complete : ℕ → Appointment → Result AppointmentError Appointment
complete now a = do
  assert_transition completed a
  ok (add_event (appointment_completed a.id now) (record a { status = completed }))

unfoldable pub mark_no_show : ℕ → ℕ → Appointment → Result AppointmentError Appointment
mark_no_show by now a = do
  assert_transition no_show a
  ok (add_event (appointment_marked_no_show a.id by now) (record a { status = no_show }))

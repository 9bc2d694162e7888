-- ===== src/Scheduling/Appointment/Data.antt =====
-- libs/backend/scheduling/domain/src: the data of appointment.aggregate.ts, appointment.events.ts,
-- appointment.errors.ts and cancellation-request.ts, and value-objects/time-slot.value-object.ts. A
-- time is its milliseconds.
use detailing_studio.Prelude.{
  ℕ, Bool, ◌&&◌, Option, List, String, ltb, leb, if◌then◌else◌, Result, ok, err,
}
use detailing_studio.Shared.Money.{Money}

pub data AppointmentStatus : Type 0 where
  pending_confirmation confirmed in_progress completed cancelled no_show : AppointmentStatus

pub data CreationChannel : Type 0 where
  online manager guest : CreationChannel

pub data CancellationRequestStatus : Type 0 where
  pending approved rejected : CancellationRequestStatus

pub record CancellationRequest : Type 0 where
  pub id : ℕ
  pub requested_at : ℕ
  pub requested_by : ℕ
  pub reason : String
  pub status : CancellationRequestStatus
  pub decided_at : Option ℕ
  pub decided_by : Option ℕ
  pub decision_reason : Option String

pub record TimeSlot : Type 0 where
  pub start : ℕ
  pub end : ℕ
  pub timezone : String

pub record AppointmentService : Type 0 where
  pub id : ℕ
  pub service_id : ℕ
  pub service_name_snapshot : String
  pub duration_minutes_snapshot : ℕ
  pub price_snapshot : Money

-- The slot's length is in milliseconds here.
pub data AppointmentError : Type 0 where
  invalid_time_slot services_empty no_cancellation_request : AppointmentError
  cancellation_request_already_decided : AppointmentError
  invalid_state_transition : AppointmentStatus → AppointmentStatus → AppointmentError
  slot_duration_too_short : ℕ → ℕ → AppointmentError

unfoldable pub time_slot : ℕ → ℕ → String → Result AppointmentError TimeSlot
time_slot start end timezone =
    if leb end start
    then err invalid_time_slot
    else ok (record { start = start; end = end; timezone = timezone })

abbrev pub overlaps : TimeSlot → TimeSlot → Bool
overlaps a b = ltb a.start b.end && ltb b.start a.end

pub record ServiceSnapshot : Type 0 where
  pub id : ℕ
  pub service_id : ℕ
  pub service_name : String
  pub duration_minutes : ℕ
  pub price_cents : ℕ

abbrev pub service_snapshot : AppointmentService → ServiceSnapshot
service_snapshot s = record {
  id = s.id;
  service_id = s.service_id;
  service_name = s.service_name_snapshot;
  duration_minutes = s.duration_minutes_snapshot;
  price_cents = s.price_snapshot.cents;
}

-- `props` of `create`, and the payload of its event.
pub record CreateAppointmentProps : Type 0 where
  pub id : ℕ
  pub client_id : ℕ
  pub vehicle_id : ℕ
  pub branch_id : ℕ
  pub bay_id : Option ℕ
  pub master_id : ℕ
  pub services : List AppointmentService
  pub slot : TimeSlot
  pub created_by : ℕ
  pub created_via : CreationChannel
  pub now : ℕ

pub data AppointmentEvent : Type 0 where
  appointment_created :
      CreateAppointmentProps → List ServiceSnapshot → AppointmentStatus → AppointmentEvent
  appointment_confirmed : ℕ → ℕ → ℕ → AppointmentEvent
  appointment_rescheduled :
      ℕ → TimeSlot → TimeSlot → ℕ → ℕ → Option ℕ → Option ℕ → ℕ → ℕ → AppointmentEvent
  appointment_cancelled : ℕ → String → ℕ → ℕ → AppointmentEvent
  appointment_cancellation_requested : ℕ → ℕ → String → ℕ → AppointmentEvent
  appointment_cancellation_approved : ℕ → ℕ → ℕ → AppointmentEvent
  appointment_cancellation_rejected : ℕ → ℕ → String → ℕ → AppointmentEvent
  appointment_started :
      ℕ → ℕ → ℕ → ℕ → ℕ → TimeSlot → List ServiceSnapshot → ℕ → ℕ → AppointmentEvent
  appointment_completed : ℕ → ℕ → AppointmentEvent
  appointment_marked_no_show : ℕ → ℕ → ℕ → AppointmentEvent

pub record Appointment : Type 0 where
  pub id : ℕ
  pub client_id : ℕ
  pub vehicle_id : ℕ
  pub branch_id : ℕ
  pub bay_id : Option ℕ
  pub master_id : ℕ
  pub services : List AppointmentService
  pub slot : TimeSlot
  pub status : AppointmentStatus
  pub cancellation_request : Option CancellationRequest
  pub created_by : ℕ
  pub created_via : CreationChannel
  pub created_at : ℕ
  pub version : ℕ
  pub events : List AppointmentEvent

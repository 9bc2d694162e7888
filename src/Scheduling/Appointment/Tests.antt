-- ===== src/Scheduling/Appointment/Tests.antt =====
-- The theorems on appointments at a concrete one.
use detailing_studio.Prelude.{◌≡◌, ◌⊎◌, refl, true, [], ◌∷◌, none, Option, Result, ok, err, ◌>>=◌}
use detailing_studio.Scheduling.Appointment.{
  Appointment, AppointmentError, AppointmentService, AppointmentStatus, TimeSlot,
  CreateAppointmentProps, CancellationRequest, manager, confirmed, in_progress, pending,
  can_transition, create, start_work, request_cancellation, approve_cancellation,
}
use detailing_studio.Scheduling.Appointment.Lifecycle.{
  starts_work, approves_cancellation, requests_cancellation, run_command, IsValid, here, next,
  run_command-can_transition, appointment_history-IsValid,
}

abbrev wash : AppointmentService
wash = record {
  id = 1;
  service_id = 1;
  service_name_snapshot = "wash";
  duration_minutes_snapshot = 60;
  price_snapshot = record { cents = 150000 };
}

-- From 10:00 to 11:00 of the first day.
abbrev pub morning : TimeSlot
morning = record { start = 36000000; end = 39600000; timezone = "UTC" }

abbrev booking : CreateAppointmentProps
booking = record {
  id = 1;
  client_id = 2;
  vehicle_id = 3;
  branch_id = 4;
  bay_id = none;
  master_id = 5;
  services = wash ∷ [];
  slot = morning;
  created_by = 6;
  created_via = manager;
  now = 0;
}

abbrev ask : CancellationRequest
ask = record {
  id = 9;
  requested_at = 1;
  requested_by = 2;
  reason = "ill";
  status = pending;
  decided_at = none;
  decided_by = none;
  decision_reason = none;
}

abbrev pub booked_with : AppointmentStatus → Option CancellationRequest → Appointment
booked_with status request = record {
  id = 1;
  client_id = 2;
  vehicle_id = 3;
  branch_id = 4;
  bay_id = none;
  master_id = 5;
  services = wash ∷ [];
  slot = morning;
  status = status;
  cancellation_request = request;
  created_by = 6;
  created_via = manager;
  created_at = 0;
  version = 0;
  events = [];
}

run_command-can_transition_example :
    (in_progress ≡ confirmed) ⊎ (can_transition confirmed in_progress ≡ true)
unfolding run_command start_work
run_command-can_transition_example =
    run_command-can_transition (starts_work 6 10) (booked_with confirmed none) refl refl

-- The appointment that a call leaves, where it does not throw.
abbrev value_of : Result AppointmentError Appointment → Appointment
value_of (ok a) = a
value_of (err e) = booked_with confirmed none

-- The client asks to cancel, and the request is approved.
appointment_history-IsValid_example : IsValid (
    value_of (
      create booking >>= λ a.
      request_cancellation 2 "ill" 1 9 a >>= λ b. approve_cancellation 6 2 b))
unfolding create run_command request_cancellation approve_cancellation
appointment_history-IsValid_example =
    appointment_history-IsValid booking refl
      (next (approves_cancellation 6 2) (next (requests_cancellation 2 "ill" 1 9) here refl) refl)

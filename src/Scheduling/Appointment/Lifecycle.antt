-- ===== src/Scheduling/Appointment/Lifecycle.antt =====
-- The life of an appointment, over all its methods.
use detailing_studio.Prelude.{
  ℕ, ◌-◌, ◌*◌, ◌≤◌, ◌≡◌, refl, ◌≢◌, ◌⊎◌, Bool, true, false, not, ◌&&◌, Option, none, some, [],
  String, arith, Result, ok, ◌++◌, ◌∷◌,
}
use detailing_studio.Scheduling.Appointment.{
  Appointment, AppointmentStatus, completed, cancelled, no_show, AppointmentError,
  CancellationRequest, CancellationRequestStatus, approved, pending, TimeSlot,
  CreateAppointmentProps, can_transition, total_service_minutes, ms_per_minute, create, confirm,
  reschedule, cancel, request_cancellation, approve_cancellation, reject_cancellation, start_work,
  complete, mark_no_show, appointment_cancelled, appointment_cancellation_approved,
}

-- The calls of the methods.
pub data Command : Type 0 where
  confirms : ℕ → ℕ → Command
  reschedules : TimeSlot → ℕ → ℕ → Option ℕ → Option (Option ℕ) → Command
  cancels : ℕ → String → ℕ → Command
  requests_cancellation : ℕ → String → ℕ → ℕ → Command
  approves_cancellation : ℕ → ℕ → Command
  rejects_cancellation : ℕ → String → ℕ → Command
  starts_work : ℕ → ℕ → Command
  completes : ℕ → Command
  marks_no_show : ℕ → ℕ → Command

unfoldable pub run_command : Command → Appointment → Result AppointmentError Appointment
unfolding confirm reschedule cancel request_cancellation approve_cancellation reject_cancellation
    start_work complete mark_no_show
run_command (confirms by now) = confirm by now
run_command (reschedules slot by now master bay) = reschedule slot by now master bay
run_command (cancels by reason now) = cancel by reason now
run_command (requests_cancellation by reason now id) = request_cancellation by reason now id
run_command (approves_cancellation by now) = approve_cancellation by now
run_command (rejects_cancellation by reason now) = reject_cancellation by reason now
run_command (starts_work by now) = start_work by now
run_command (completes now) = complete now
run_command (marks_no_show by now) = mark_no_show by now

abbrev pub is_approval : Command → Bool
is_approval (approves_cancellation by now) = true
is_approval c = false

-- Every call that succeeds, except the approval of a cancellation, leaves the status as it is or
-- takes it along the table of allowed transitions.
pub run_command-can_transition :
    (c : Command) (a : Appointment) {a' : Appointment}
    → is_approval c ≡ false
    → run_command c a ≡ ok a'
    → (a'.status ≡ a.status) ⊎ (can_transition a.status a'.status ≡ true)
unfolding run_command
run_command-can_transition (confirms by now) a h e = ground arith
run_command-can_transition (approves_cancellation by now) a h e = ground arith
run_command-can_transition c a h e = ground arith

abbrev pub request_status : Option CancellationRequest → Option CancellationRequestStatus
request_status none = none
request_status (some r) = some r.status

abbrev pub is_approved : Option CancellationRequest → Bool
is_approved none = false
is_approved (some r) = elim r.status [ approved ↦ true | _ ↦ false ]

abbrev pub was_cancelled : AppointmentStatus → Bool
was_cancelled cancelled = true
was_cancelled s = false

-- What holds of an appointment between two calls.
pub record IsValid (a : Appointment) : Type 0 where
  pub booked : a.services ≢ []
  pub long_enough : total_service_minutes a.services * ms_per_minute ≤ a.slot.end - a.slot.start
  pub approved_request_cancels :
      (is_approved a.cancellation_request && not (was_cancelled a.status)) ≡ false

-- An appointment that `create` accepts has services, and its slot is long enough for them.
create-IsValid :
    (props : CreateAppointmentProps) {a : Appointment} → create props ≡ ok a → IsValid a
unfolding create
create-IsValid props e = ground arith

-- Every call that succeeds keeps that.
run_command-IsValid :
    (c : Command) (a : Appointment) {a' : Appointment}
    → run_command c a ≡ ok a'
    → IsValid a
    → IsValid a'
unfolding run_command
run_command-IsValid (confirms by now) a e v = ground arith
run_command-IsValid (reschedules slot by now master bay) a e v = ground arith
run_command-IsValid c a e v = ground arith

-- The histories of an appointment.
pub data Reach (a : Appointment) : Appointment → Type 0 where
  here : Reach a a
  next : {b c : Appointment} (x : Command) → Reach a b → run_command x b ≡ ok c → Reach a c

reach-IsValid : {a b : Appointment} → Reach a b → IsValid a → IsValid b
reach-IsValid here v = v
reach-IsValid (next x r e) v = run_command-IsValid x _ e (reach-IsValid r v)

-- After any successful calls on an appointment that was created, it has services, its slot is long
-- enough for all of them, and an approved cancellation request has left it cancelled.
pub appointment_history-IsValid :
    (props : CreateAppointmentProps) {a b : Appointment}
    → create props ≡ ok a
    → Reach a b
    → IsValid b
appointment_history-IsValid props e r = reach-IsValid r (create-IsValid props e)

-- `approveCancellation` of a pending request cancels an appointment of any status, also one that is
-- completed or in progress, which the table of transitions forbids.
pub approve_cancellation_escapes :
    (a : Appointment) (r : CancellationRequest) (by now : ℕ)
    → a.cancellation_request ≡ some r
    → r.status ≡ pending
    → can_transition a.status cancelled ≡ false
    → (a' : Appointment) × (approve_cancellation by now a ≡ ok a')
      × (a'.status ≡ cancelled)
      × (can_transition a.status a'.status ≡ false)
unfolding approve_cancellation
approve_cancellation_escapes a r by now e p h = (
  record a {
    cancellation_request =
        some (record r { status = approved; decided_at = some now; decided_by = some by });
    status = cancelled;
    events =
        (a.events ++ appointment_cancellation_approved a.id by now ∷ [])
        ++ appointment_cancelled a.id r.reason by now ∷ [];
  },
  ground arith,
  refl,
  h,
)

-- A finished appointment: no transition leads away from its status.
abbrev pub is_final : AppointmentStatus → Bool
is_final completed = true
is_final cancelled = true
is_final no_show = true
is_final s = false

-- On a completed, cancelled or missed appointment with no pending cancellation request every call
-- throws.
pub final_refuses :
    (c : Command) (a a' : Appointment)
    → is_final a.status ≡ true
    → request_status a.cancellation_request ≢ some pending
    → run_command c a ≢ ok a'
unfolding run_command
final_refuses (confirms by now) a a' h k e = ground arith
final_refuses c a a' h k e = ground arith

-- ===== src/Notification.antt =====
-- libs/backend/notifications/domain/src/notification: notification.aggregate.ts,
-- notification-status.ts, state-transitions.ts, delivery-attempt.ts, notification.events.ts and
-- notification.errors.ts. A time is a number of milliseconds. The payload of the template, which no
-- method reads, is left out, and a template, a recipient and a key of duplicates are numbers.
pub mod Lifecycle
mod Tests
use detailing_studio.Prelude.{
  ℕ, suc, ◌+◌, ◌*◌, Bool, true, false, not, Option, none, some, List, [], ◌∷◌, ◌++◌, String, length,
  leb, if◌then◌else◌, Result, ok, err, throw_if, ◌>>=◌, ◌>>◌,
}

pub data NotificationStatus : Type 0 where
  pending queued sending sent failed deduped expired : NotificationStatus

pub data NotificationChannel : Type 0 where
  email sms telegram push : NotificationChannel

pub record DeliveryAttempt : Type 0 where
  pub attempt_no : ℕ
  pub attempted_at : ℕ
  pub error : Option String
  pub provider_id : Option String

pub data NotificationError : Type 0 where
  invalid_state_transition : NotificationStatus → NotificationStatus → NotificationError
  max_attempts_reached : ℕ → NotificationError

pub data NotificationEvent : Type 0 where
  notification_issued : ℕ → ℕ → NotificationChannel → ℕ → NotificationEvent
  notification_queued notification_deduped notification_lapsed : ℕ → ℕ → NotificationEvent
  notification_delivered notification_failed : ℕ → String → ℕ → NotificationEvent
  notification_retry_scheduled : ℕ → ℕ → String → ℕ → NotificationEvent

pub record Notification : Type 0 where
  pub id : ℕ
  pub recipient : ℕ
  pub template_code : ℕ
  pub channel : NotificationChannel
  pub status : NotificationStatus
  pub attempts : List DeliveryAttempt
  pub scheduled_for : Option ℕ
  pub dedup_key : Option ℕ
  pub created_at : ℕ
  pub sent_at : Option ℕ
  pub failed_at : Option ℕ
  pub expires_at : ℕ
  pub events : List NotificationEvent

abbrev add_event : NotificationEvent → Notification → Notification
add_event e n = record n { events = n.events ++ e ∷ [] }

abbrev pub max_attempts : ℕ
max_attempts = 3

abbrev hours_or : Option ℕ → ℕ
hours_or none = 24
hours_or (some n) = n

unfoldable pub issue :
    ℕ → ℕ → ℕ → NotificationChannel → Option ℕ → Option ℕ → ℕ → Option ℕ → Notification
issue id recipient template_code channel scheduled_for dedup_key now ttl_hours =
    add_event (notification_issued id template_code channel now) (record {
      id = id;
      recipient = recipient;
      template_code = template_code;
      channel = channel;
      status = pending;
      attempts = [];
      scheduled_for = scheduled_for;
      dedup_key = dedup_key;
      created_at = now;
      sent_at = none;
      failed_at = none;
      expires_at = now + hours_or ttl_hours * 60 * 60 * 1000;
      events = [];
    })

abbrev pub is_terminal : NotificationStatus → Bool
is_terminal sent = true
is_terminal failed = true
is_terminal deduped = true
is_terminal expired = true
is_terminal s = false

-- Membership in the table of `ALLOWED_TRANSITIONS`.
abbrev pub can_transition : NotificationStatus → NotificationStatus → Bool
can_transition pending queued = true
can_transition pending deduped = true
can_transition pending expired = true
can_transition queued sending = true
can_transition queued expired = true
can_transition sending sent = true
can_transition sending pending = true
can_transition sending failed = true
can_transition s t = false

abbrev transition_to : NotificationStatus → Notification → Result NotificationError Notification
transition_to to n = do
  throw_if (is_terminal n.status) (invalid_state_transition n.status to)
  throw_if (not (can_transition n.status to)) (invalid_state_transition n.status to)
  ok (record n { status = to })

abbrev push_attempt : ℕ → Option String → Option String → Notification → Notification
push_attempt now error provider_id n = record n {
  attempts =
      n.attempts
      ++ (record {
        attempt_no = length n.attempts + 1;
        attempted_at = now;
        error = error;
        provider_id = provider_id;
      }
          ∷ []);
}

unfoldable pub enqueue : ℕ → Notification → Result NotificationError Notification
enqueue now n = do n' ← transition_to queued n; ok (add_event (notification_queued n.id now) n')

unfoldable pub mark_deduped : ℕ → Notification → Result NotificationError Notification
mark_deduped now n = do
  n' ← transition_to deduped n
  ok (add_event (notification_deduped n.id now) n')

unfoldable pub mark_sending : Notification → Result NotificationError Notification
mark_sending n = transition_to sending n

unfoldable pub mark_sent : String → ℕ → Notification → Result NotificationError Notification
mark_sent provider_id now n = do
  n' ← transition_to sent n
  ok (
      add_event (notification_delivered n.id provider_id now)
        (push_attempt now none (some provider_id) (record n' { sent_at = some now })))

unfoldable pub mark_retryable : String → ℕ → Notification → Result NotificationError Notification
mark_retryable error now n = do
  throw_if (leb max_attempts (length n.attempts)) (max_attempts_reached max_attempts)
  n' ← transition_to pending (push_attempt now (some error) none n)
  ok (add_event (notification_retry_scheduled n.id (length n'.attempts) error now) n')

unfoldable pub mark_failed : String → ℕ → Notification → Result NotificationError Notification
mark_failed error now n = do
  n' ← transition_to failed (push_attempt now (some error) none n)
  ok (add_event (notification_failed n.id error now) (record n' { failed_at = some now }))

unfoldable pub mark_expired : ℕ → Notification → Result NotificationError Notification
mark_expired now n = do
  throw_if (leb now n.expires_at) (invalid_state_transition n.status expired)
  n' ← transition_to expired n
  ok (add_event (notification_lapsed n.id now) n')

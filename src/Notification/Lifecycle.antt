-- ===== src/Notification/Lifecycle.antt =====
-- The life of a notification, over all its methods.
use detailing_studio.Prelude.{
  ℕ, suc, ◌+◌, ◌≤◌, ◌≡◌, refl, ap, arith, Bool, true, false, ◌&&◌, Option, none, some, List, [],
  ◌∷◌, ◌++◌, String, length, ◌==◌, if◌then◌else◌, Result, ok,
}
use detailing_studio.Notification.{
  Notification, NotificationStatus, NotificationChannel, NotificationError, DeliveryAttempt, sent,
  failed, is_terminal, max_attempts, issue, enqueue, mark_deduped, mark_sending, mark_sent,
  mark_retryable, mark_failed, mark_expired,
}

pub data Command : Type 0 where
  enqueues dedups expires : ℕ → Command
  sends : Command
  delivers retries fails : String → ℕ → Command

unfoldable pub run_command : Command → Notification → Result NotificationError Notification
run_command (enqueues now) n = enqueue now n
run_command (dedups now) n = mark_deduped now n
run_command sends n = mark_sending n
run_command (delivers provider now) n = mark_sent provider now n
run_command (retries error now) n = mark_retryable error now n
run_command (fails error now) n = mark_failed error now n
run_command (expires now) n = mark_expired now n

pub data Reach (n : Notification) : Notification → Type 0 where
  here : Reach n n
  next : {m k : Notification} (c : Command) → Reach n m → run_command c m ≡ ok k → Reach n k

abbrev is_given : Option ℕ → Bool
is_given none = false
is_given (some n) = true

abbrev is_sent : NotificationStatus → Bool
is_sent sent = true
is_sent s = false

abbrev is_failed : NotificationStatus → Bool
is_failed failed = true
is_failed s = false

-- The attempts are numbered from k on.
abbrev pub numbered : ℕ → List DeliveryAttempt → Bool
numbered k [] = true
numbered k (a ∷ rest_of) = a.attempt_no == k && numbered (suc k) rest_of

-- The attempts are numbered from 1 on; there are at most three before the end and four at the end; the
-- times of sending and of failing are there just where it was sent, or has failed.
pub record IsValid (n : Notification) : Type 0 where
  pub in_order : numbered 1 n.attempts ≡ true
  pub few : length n.attempts ≤ max_attempts + (if is_terminal n.status then 1 else 0)
  pub sent_time : is_given n.sent_at ≡ is_sent n.status
  pub failed_time : is_given n.failed_at ≡ is_failed n.status

length-snoc :
    (rest_of : List DeliveryAttempt) (a : DeliveryAttempt)
    → length (rest_of ++ a ∷ []) ≡ suc (length rest_of)
length-snoc [] a = refl
length-snoc (x ∷ rest_of) a = ap suc (length-snoc rest_of a)

numbered-snoc :
    (k : ℕ) (rest_of : List DeliveryAttempt) (a : DeliveryAttempt)
    → numbered k rest_of ≡ true
    → a.attempt_no ≡ length rest_of + k
    → numbered k (rest_of ++ a ∷ []) ≡ true
numbered-snoc k [] a h e = ground arith
numbered-snoc k (x ∷ rest_of) a h e =
    let rest : numbered (suc k) rest_of ≡ true = ground arith in
    let tail = numbered-snoc (suc k) rest_of a rest (omega (arith, e)) in ground (arith, tail)

abbrev attempt : ℕ → Option String → Option String → Notification → DeliveryAttempt
attempt now error provider_id n = record {
  attempt_no = length n.attempts + 1;
  attempted_at = now;
  error = error;
  provider_id = provider_id;
}

run_command-IsValid :
    (c : Command) (n : Notification) {m : Notification}
    → run_command c n ≡ ok m
    → IsValid n
    → IsValid m
unfolding run_command enqueue mark_deduped mark_sending mark_sent mark_retryable mark_failed
    mark_expired
run_command-IsValid (enqueues now) n e v = ground arith
run_command-IsValid (dedups now) n e v = ground arith
run_command-IsValid (expires now) n e v = ground arith
run_command-IsValid sends n e v = ground arith
run_command-IsValid (delivers provider now) n e v =
    let a = attempt now none (some provider) n in
    ground (arith, numbered-snoc 1 n.attempts a v.in_order refl, length-snoc n.attempts a)
run_command-IsValid (retries error now) n e v =
    let a = attempt now (some error) none n in
    ground (arith, numbered-snoc 1 n.attempts a v.in_order refl, length-snoc n.attempts a)
run_command-IsValid (fails error now) n e v =
    let a = attempt now (some error) none n in
    ground (arith, numbered-snoc 1 n.attempts a v.in_order refl, length-snoc n.attempts a)

past-IsValid : {n m : Notification} → Reach n m → IsValid n → IsValid m
past-IsValid here v = v
past-IsValid (next c past e) v = run_command-IsValid c _ e (past-IsValid past v)

-- After any successful calls on an issued notification its attempts are numbered from 1 on, there are at
-- most three of them before it ends and four at its end, and it has a time of sending or of failing just
-- where it was sent, or has failed.
pub notification_history-IsValid :
    (id recipient template_code : ℕ) (channel : NotificationChannel)
    (scheduled_for dedup_key : Option ℕ) (now : ℕ) (ttl_hours : Option ℕ) {n : Notification}
    → Reach (issue id recipient template_code channel scheduled_for dedup_key now ttl_hours) n
    → IsValid n
unfolding issue
notification_history-IsValid id recipient template_code channel scheduled_for dedup_key now
      ttl_hours past =
    past-IsValid past
      (record { in_order = refl; few = omega arith; sent_time = refl; failed_time = refl })

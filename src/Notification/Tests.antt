-- ===== src/Notification/Tests.antt =====
-- A notification that is delivered at its second attempt.
use detailing_studio.Prelude.{refl, none, List, [], ◌∷◌, Result, ok, err}
use detailing_studio.Notification.{
  Notification, NotificationError, sms, issue, enqueue, mark_sending, mark_sent, mark_retryable,
}
use detailing_studio.Notification.Lifecycle.{
  Command, enqueues, sends, retries, delivers, run_command, here, next, IsValid,
  notification_history-IsValid,
}

abbrev or_self : Notification → Result NotificationError Notification → Notification
or_self n (ok m) = m
or_self n (err e) = n

abbrev run_all : List Command → Notification → Notification
run_all [] n = n
run_all (c ∷ cs) n = run_all cs (or_self n (run_command c n))

abbrev issued : Notification
issued = issue 1 2 3 sms none none 10 none

abbrev delivered : Notification
delivered =
    run_all (enqueues 11 ∷ sends ∷ retries "busy" 12 ∷ enqueues 13 ∷ sends ∷ delivers "p1" 14 ∷ [])
      issued

notification_history-IsValid_example : IsValid delivered
unfolding issue run_command enqueue mark_sending mark_sent mark_retryable
notification_history-IsValid_example = notification_history-IsValid 1 2 3 sms none none 10 none (
    next (delivers "p1" 14)
      (next sends
        (next (enqueues 13)
          (next (retries "busy" 12) (next sends (next (enqueues 11) here refl) refl) refl) refl)
        refl)
      refl)

-- ===== src/Outbox/Tests.antt =====
-- An event that is appended, fails once and is published then.
use detailing_studio.Prelude.{
  ℕ, ◌+◌, ◌≡◌, refl, false, Option, none, some, List, [], ◌∷◌, String, ◌==◌, leb, if◌then◌else◌,
  arith, All,
}
use detailing_studio.Outbox.{
  OutboxRow, default_outbox_poller_options, append, run_batch, due_rows, first_rows,
  handle_publish_error, process_events, write_row, doubled,
}
use detailing_studio.Outbox.Laws.{IsValid, here, appends, runs, outbox_history-IsValid}
use detailing_studio.Outbox.Settled.{find_row, run_batch-settled}

-- The handlers fail before the time 3000.
abbrev deliver : ℕ → OutboxRow → Option String
deliver now r = if leb 3000 now then none else some "handler failed"

-- Every row is written.
abbrev flush : ℕ → OutboxRow → Option String
flush now r = none

-- A write that sets `publishedAt` without an error fails.
abbrev flaky : ℕ → OutboxRow → Option String
flaky now r = elim r.last_error [ none ↦ some "connection lost" | some message ↦ none ]

abbrev ticks : ℕ → ℕ → ℕ
ticks start k = start + k

abbrev rows : List OutboxRow
rows = run_batch default_outbox_poller_options deliver flush (ticks 5000) (
    run_batch default_outbox_poller_options deliver flush (ticks 1000)
      (append 1 "Stock" 7 "StockConsumed" 10 []))

-- The second time the handlers succeed, but the write of the row fails.
abbrev uncertain_rows : List OutboxRow
uncertain_rows = run_batch default_outbox_poller_options deliver flaky (ticks 5000) (
    run_batch default_outbox_poller_options deliver flush (ticks 1000)
      (append 1 "Stock" 7 "StockConsumed" 10 []))

outbox_history-IsValid_example : All (IsValid default_outbox_poller_options) uncertain_rows
outbox_history-IsValid_example =
    outbox_history-IsValid default_outbox_poller_options (omega arith) (
      runs deliver flaky (ticks 5000)
        (runs deliver flush (ticks 1000) (appends 1 7 10 "Stock" "StockConsumed" here)))

abbrev sent_row : OutboxRow
sent_row = record {
  id = 1;
  aggregate_type = "Stock";
  aggregate_id = 7;
  event_type = "StockConsumed";
  occurred_at = 10;
  published_at = some 5001;
  retry_count = 1;
  retry_after_at = none;
  failed_at = none;
  last_error = none;
}

run_batch-settled_example :
    (find_row 1 (run_batch default_outbox_poller_options deliver flush (ticks 9000) (sent_row ∷ []))
      ≡ some sent_row)
    × All (λ x. (x.id == 1) ≡ false) (due_rows default_outbox_poller_options 9000 (sent_row ∷ []))
unfolding find_row
run_batch-settled_example =
    run_batch-settled default_outbox_poller_options deliver flush (ticks 9000) 1 (sent_row ∷ [])
      sent_row refl (omega arith) refl

-- The row after the first batch, and after the second.
second_try : rows ≡ sent_row ∷ []
unfolding append run_batch first_rows handle_publish_error process_events write_row doubled
second_try = refl

-- The event was delivered, but the write failed: the row is published and waits for a retry.
sent_and_waiting :
    uncertain_rows
    ≡ record sent_row {
      retry_count = 2;
      retry_after_at = some 7001;
      last_error = some "connection lost";
    }
      ∷ []
unfolding append run_batch first_rows handle_publish_error process_events write_row doubled
sent_and_waiting = refl

-- ===== src/Outbox.antt =====
-- libs/backend/shared/outbox/src: the table of outbox-event.schema.ts, `append` of outbox.service.ts
-- and the batches of outbox-poller.service.ts. Handing an event to its handlers is a parameter, which
-- gives an error or none, and so is writing a row to the database (`em.flush()`), which leaves the
-- table as it is where it fails; the clock gives a time for each event of a batch. The payload is left
-- out, and so are the start and the end of the service.
pub mod Laws
pub mod Settled
mod Tests
use detailing_studio.Prelude.{
  ℕ, zero, suc, ◌+◌, ◌-◌, ◌*◌, max, Bool, true, false, not, ◌&&◌, Option, none, some, List, [], ◌∷◌,
  ◌++◌, String, leb, ◌==◌, if◌then◌else◌, filter, sort, Result, ok, err,
}

pub record OutboxRow : Type 0 where
  pub id : ℕ
  pub aggregate_type : String
  pub aggregate_id : ℕ
  pub event_type : String
  pub occurred_at : ℕ
  pub published_at : Option ℕ
  pub retry_count : ℕ
  pub retry_after_at : Option ℕ
  pub failed_at : Option ℕ
  pub last_error : Option String

pub record PollerOptions : Type 0 where
  pub base_backoff_ms : ℕ
  pub batch_size : ℕ
  pub max_retry_count : ℕ

abbrev pub default_outbox_poller_options : PollerOptions
default_outbox_poller_options = record {
  base_backoff_ms = 1000;
  batch_size = 100;
  max_retry_count = 5;
}

-- The row that `append` persists, with the id that `stableEventUuid` computes.
unfoldable pub append : ℕ → String → ℕ → String → ℕ → List OutboxRow → List OutboxRow
append id aggregate_type aggregate_id event_type occurred_at rows =
    rows
    ++ (record {
      id = id;
      aggregate_type = aggregate_type;
      aggregate_id = aggregate_id;
      event_type = event_type;
      occurred_at = occurred_at;
      published_at = none;
      retry_count = 0;
      retry_after_at = none;
      failed_at = none;
      last_error = none;
    }
        ∷ [])

abbrev pub is_null : Option ℕ → Bool
is_null none = true
is_null (some n) = false

abbrev null_or_past : ℕ → Option ℕ → Bool
null_or_past now none = true
null_or_past now (some at) = leb at now

-- The condition of the query.
abbrev pub is_due : ℕ → OutboxRow → Bool
is_due now r = null_or_past now r.retry_after_at && is_null r.failed_at && is_null r.published_at

unfoldable pub first_rows : ℕ → List OutboxRow → List OutboxRow
first_rows n [] = []
first_rows n (r ∷ rs) = if n == 0 then [] else r ∷ first_rows (n - 1) rs

abbrev earlier : OutboxRow → OutboxRow → Bool
earlier a b = leb a.occurred_at b.occurred_at

-- Rounds of doubling.
unfoldable pub doubled : ℕ → ℕ → ℕ
doubled base zero = base
doubled base (suc n) = 2 * doubled base n

-- A row of the id is written back.
unfoldable pub write_row : OutboxRow → List OutboxRow → List OutboxRow
write_row r [] = []
write_row r (x ∷ xs) = if x.id == r.id then r ∷ xs else x ∷ write_row r xs

abbrev pub saved_with : Option String → OutboxRow → Result String OutboxRow
saved_with none r = ok r
saved_with (some message) r = err message

-- The rest of the loop for the row that was written, or the table as it is after an error.
abbrev pub saved_or :
    Result String OutboxRow → List OutboxRow → (OutboxRow → List OutboxRow) → List OutboxRow
saved_or (ok saved) rows rest = rest saved
saved_or (err message) rows rest = rows

module _ (options : PollerOptions) where
  abbrev pub backoff_ms : ℕ → ℕ
  backoff_ms retry_count = doubled options.base_backoff_ms (max (retry_count - 1) 0)

  unfoldable pub handle_publish_error : ℕ → String → OutboxRow → OutboxRow
  handle_publish_error now message r =
      let next_retry_count = r.retry_count + 1 in
      let counted = record r { retry_count = next_retry_count; last_error = some message } in
      if leb options.max_retry_count next_retry_count
      then record counted { failed_at = some now; retry_after_at = none }
      else record counted { retry_after_at = some (now + backoff_ms next_retry_count) }

  -- What a batch works on.
  abbrev pub due_rows : ℕ → List OutboxRow → List OutboxRow
  due_rows now rows = first_rows options.batch_size (sort earlier (filter (is_due now) rows))

  abbrev pub published : ℕ → OutboxRow → OutboxRow
  published now r = record r { published_at = some now; last_error = none; retry_after_at = none }

  module _ (deliver flush : ℕ → OutboxRow → Option String) (clock : ℕ → ℕ) where
    -- `em.flush()` with the row changed.
    abbrev pub save : ℕ → OutboxRow → Result String OutboxRow
    save now r = saved_with (flush now r) r

    -- The `catch` after the flush in the `try`: the row is published already.
    abbrev pub after_flush : ℕ → Option String → OutboxRow → Result String OutboxRow
    after_flush now none sent = ok sent
    after_flush now (some message) sent = save now (handle_publish_error now message sent)

    abbrev pub after_delivery : ℕ → Option String → OutboxRow → Result String OutboxRow
    after_delivery now none r = after_flush now (flush now (published now r)) (published now r)
    after_delivery now (some message) r = save now (handle_publish_error now message r)

    -- The error of the flush in `handlePublishError` goes through to the batch.
    abbrev pub process_event : ℕ → OutboxRow → Result String OutboxRow
    process_event k r = after_delivery (clock k) (deliver (clock k) r) r

    -- The table after the loop: an error ends it, and what was written before stays.
    unfoldable pub process_events : ℕ → List OutboxRow → List OutboxRow → List OutboxRow
    process_events k [] rows = rows
    process_events k (r ∷ rs) rows =
        saved_or (process_event k r) rows
          (λ saved. process_events (suc k) rs (write_row saved rows))

    -- The table after the batch, which may have ended with an error.
    unfoldable pub run_batch : List OutboxRow → List OutboxRow
    unfolding process_events
    run_batch rows = process_events 1 (due_rows (clock 0) rows) rows

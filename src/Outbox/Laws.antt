-- ===== src/Outbox/Laws.antt =====
-- What the poller keeps of the rows of the outbox.
use detailing_studio.Prelude.{
  ℕ, suc, ◌+◌, ◌-◌, ◌≤◌, ◌≡◌, refl, ap, arith, true, false, not, ◌&&◌, Option, none, some, List, [],
  ◌∷◌, String, leb, ◌==◌, filter, sort, All, All-filter, All-sort, All-append, Bool-cases,
  Result-cases, ok, err, subst, inl, inr, Bool,
}
use detailing_studio.Outbox.{
  OutboxRow, PollerOptions, earlier, append, is_null, is_due, first_rows, write_row,
  handle_publish_error, published, saved_with, after_flush, after_delivery, saved_or, due_rows,
  process_event, process_events, run_batch,
}

pub All-first_rows {κ} :
    (P : OutboxRow → Type κ) (n : ℕ) (rs : List OutboxRow) → All P rs → All P (first_rows n rs)
unfolding first_rows
All-first_rows P n [] h = tt
All-first_rows P n (r ∷ rs) h = elim (Bool-cases (n == 0)) [
  | inl done ↦ rw done tt
  | inr more ↦ rw more (h.0, All-first_rows P (n - 1) rs h.1)
]

All-write_row {κ} :
    (P : OutboxRow → Type κ) (r : OutboxRow) (rows : List OutboxRow)
    → P r
    → All P rows
    → All P (write_row r rows)
unfolding write_row
All-write_row P r [] p h = tt
All-write_row P r (x ∷ xs) p h = elim (Bool-cases (x.id == r.id)) [
  | inl hit ↦ rw hit (p, h.1)
  | inr miss ↦ rw miss (h.0, All-write_row P r xs p h.1)
]

abbrev pub is_clean : Option String → Bool
is_clean none = true
is_clean (some message) = false

-- A row is given up just where it has used up its retries, it waits for a retry only while it is not
-- given up, and a published row that has no error is neither given up nor waiting.
pub record IsValid (options : PollerOptions) (r : OutboxRow) : Type 0 where
  pub given_up : not (is_null r.failed_at) ≡ leb options.max_retry_count r.retry_count
  pub retries : r.retry_count ≤ options.max_retry_count
  pub waits : (not (is_null r.retry_after_at) && not (is_null r.failed_at)) ≡ false
  pub one_end :
      (not (is_null r.published_at)
        && (is_clean r.last_error && not (is_null r.retry_after_at && is_null r.failed_at)))
      ≡ false

-- The condition of the query, over a list of rows.
filter-is_due :
    (now : ℕ) (rows : List OutboxRow) → All (λ r. is_due now r ≡ true) (filter (is_due now) rows)
filter-is_due now [] = tt
filter-is_due now (r ∷ rs) = elim (Bool-cases (is_due now r)) [
  | inl due ↦ rw due (due, filter-is_due now rs)
  | inr off ↦ rw off (filter-is_due now rs)
]

both {κ} :
    {A : Type 0} (P Q : A → Type κ) (xs : List A) → All P xs → All Q xs → All (λ x. P x × Q x) xs
both P Q [] p q = tt
both P Q (x ∷ xs) p q = ((p.0, q.0), both P Q xs p.1 q.1)

module _ (options : PollerOptions) where
  handle_publish_error-IsValid :
      (now : ℕ) (message : String) (r : OutboxRow)
      → is_null r.failed_at ≡ true
      → IsValid options r
      → IsValid options (handle_publish_error options now message r)
  unfolding handle_publish_error
  handle_publish_error-IsValid now message r going v =
      elim (Bool-cases (leb options.max_retry_count (r.retry_count + 1))) [
        | inl last ↦ rw last (ground arith)
        | inr more ↦ rw more (ground arith)
      ]

  published-IsValid :
      (now : ℕ) (r : OutboxRow)
      → is_null r.failed_at ≡ true
      → IsValid options r
      → IsValid options (published options now r)
  published-IsValid now r going v = ground arith

  due_rows-IsValid :
      (now : ℕ) (rows : List OutboxRow)
      → All (IsValid options) rows
      → All (λ r. (is_due now r ≡ true) × IsValid options r) (due_rows options now rows)
  due_rows-IsValid now rows v =
      All-first_rows _ options.batch_size (sort earlier (filter (is_due now) rows)) (
        All-sort earlier _ (filter (is_due now) rows) (
          both (λ r. is_due now r ≡ true) (IsValid options) (filter (is_due now) rows)
            (filter-is_due now rows) (All-filter (IsValid options) (is_due now) rows v)))

  saved_with-IsValid :
      (flushed : Option String) (r saved : OutboxRow)
      → saved_with flushed r ≡ ok saved
      → IsValid options r
      → IsValid options saved
  saved_with-IsValid none r saved e v =
      let same : r ≡ saved = cc in subst (λ x. IsValid options x) same v
  saved_with-IsValid (some message) r saved e v = cc

  module _ (deliver flush : ℕ → OutboxRow → Option String) (clock : ℕ → ℕ) where
    after_flush-IsValid :
        (now : ℕ) (flushed : Option String) (sent saved : OutboxRow)
        → is_null sent.failed_at ≡ true
        → after_flush options deliver flush clock now flushed sent ≡ ok saved
        → IsValid options sent
        → IsValid options saved
    after_flush-IsValid now none sent saved going e v = saved_with-IsValid none sent saved e v
    after_flush-IsValid now (some message) sent saved going e v =
        let caught = handle_publish_error options now message sent in
        saved_with-IsValid (flush now caught) caught saved e
          (handle_publish_error-IsValid now message sent going v)

    after_delivery-IsValid :
        (now : ℕ) (delivered : Option String) (r saved : OutboxRow)
        → is_null r.failed_at ≡ true
        → after_delivery options deliver flush clock now delivered r ≡ ok saved
        → IsValid options r
        → IsValid options saved
    after_delivery-IsValid now none r saved going e v =
        let sent = published options now r in
        after_flush-IsValid now (flush now sent) sent saved going e
          (published-IsValid now r going v)
    after_delivery-IsValid now (some message) r saved going e v =
        let caught = handle_publish_error options now message r in
        saved_with-IsValid (flush now caught) caught saved e
          (handle_publish_error-IsValid now message r going v)

    pub process_events-ok :
        (k : ℕ) (r saved : OutboxRow) (rs rows : List OutboxRow)
        → process_event options deliver flush clock k r ≡ ok saved
        → process_events options deliver flush clock k (r ∷ rs) rows
          ≡ process_events options deliver flush clock (suc k) rs (write_row saved rows)
    unfolding process_events
    process_events-ok k r saved rs rows e =
        let rest = λ (x : OutboxRow).
          process_events options deliver flush clock (suc k) rs (write_row x rows) in
        ap (λ x. saved_or x rows rest) e

    pub process_events-err :
        (k : ℕ) (r : OutboxRow) (message : String) (rs rows : List OutboxRow)
        → process_event options deliver flush clock k r ≡ err message
        → process_events options deliver flush clock k (r ∷ rs) rows ≡ rows
    unfolding process_events
    process_events-err k r message rs rows e =
        let rest = λ (x : OutboxRow).
          process_events options deliver flush clock (suc k) rs (write_row x rows) in
        ap (λ x. saved_or x rows rest) e

    process_events-IsValid :
        (due k : ℕ) (rs rows : List OutboxRow)
        → All (λ r. (is_due due r ≡ true) × IsValid options r) rs
        → All (IsValid options) rows
        → All (IsValid options) (process_events options deliver flush clock k rs rows)
    unfolding process_events
    process_events-IsValid due k [] rows open_rows v = v
    process_events-IsValid due k (r ∷ rs) rows ((on, one), rest) v =
        elim (Result-cases (process_event options deliver flush clock k r)) [
          | inl (saved, e) ↦ rw (process_events-ok k r saved rs rows e) (
              process_events-IsValid due (suc k) rs (write_row saved rows) rest (
                All-write_row (IsValid options) saved rows
                  (after_delivery-IsValid (clock k) (deliver (clock k) r) r saved (ground arith) e
                    one)
                  v))
          | inr (message, failed) ↦ rw (process_events-err k r message rs rows failed) v
        ]

    run_batch-IsValid :
        (rows : List OutboxRow)
        → All (IsValid options) rows
        → All (IsValid options) (run_batch options deliver flush clock rows)
    unfolding run_batch
    run_batch-IsValid rows v =
        process_events-IsValid (clock 0) 1 (due_rows options (clock 0) rows) rows
          (due_rows-IsValid (clock 0) rows v) v

  append-IsValid :
      (id aggregate_id at : ℕ) (aggregate_type event_type : String) (rows : List OutboxRow)
      → 1 ≤ options.max_retry_count
      → All (IsValid options) rows
      → All (IsValid options) (append id aggregate_type aggregate_id event_type at rows)
  unfolding append
  append-IsValid id aggregate_id at aggregate_type event_type rows some_retry v =
      All-append (IsValid options) rows _ v (
        record { given_up = ground arith; retries = omega arith; waits = refl; one_end = refl },
        tt,
      )

  -- What happens to the table: an event is appended, or a batch is run.
  pub data OutboxReach (rows : List OutboxRow) : List OutboxRow → Type 0 where
    here : OutboxReach rows rows
    appends :
        {now_rows : List OutboxRow} (id aggregate_id at : ℕ) (aggregate_type event_type : String)
        → OutboxReach rows now_rows
        → OutboxReach rows (append id aggregate_type aggregate_id event_type at now_rows)
    runs :
        {now_rows : List OutboxRow} (deliver flush : ℕ → OutboxRow → Option String) (clock : ℕ → ℕ)
        → OutboxReach rows now_rows
        → OutboxReach rows (run_batch options deliver flush clock now_rows)

  -- Whatever the handlers and the writes of the rows answer, after any appended events and batches on
  -- an empty table each row is given up just where it has used up its retries, of which there are
  -- never more than allowed, it waits for a retry only while it is not given up, and where it is
  -- published and records no error, it is neither given up nor waiting; some retry is allowed.
  pub outbox_history-IsValid :
      {rows : List OutboxRow}
      → 1 ≤ options.max_retry_count
      → OutboxReach [] rows
      → All (IsValid options) rows
  outbox_history-IsValid some_retry here = tt
  outbox_history-IsValid some_retry (appends id aggregate_id at aggregate_type event_type past) =
      append-IsValid id aggregate_id at aggregate_type event_type _ some_retry
        (outbox_history-IsValid some_retry past)
  outbox_history-IsValid some_retry (runs deliver flush clock past) =
      run_batch-IsValid deliver flush clock _ (outbox_history-IsValid some_retry past)

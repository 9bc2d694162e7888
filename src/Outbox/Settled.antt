-- ===== src/Outbox/Settled.antt =====
-- A row of the outbox that is published or given up is left alone.
use detailing_studio.Prelude.{
  ℕ, suc, ◌≤◌, ◌≡◌, refl, ◌∙◌, arith, false, ◌&&◌, Option, none, some, List, [], ◌∷◌, String, ◌==◌,
  if◌then◌else◌, filter, sort, All, All-sort, sum_by, Bool-cases, Result-cases, ok, inl, inr,
}
use detailing_studio.Outbox.{
  OutboxRow, PollerOptions, earlier, is_null, is_due, write_row, handle_publish_error, published,
  saved_with, after_flush, after_delivery, due_rows, process_event, process_events, run_batch,
}
use detailing_studio.Outbox.Laws.{All-first_rows, process_events-ok, process_events-err}

unfoldable pub find_row : ℕ → List OutboxRow → Option OutboxRow
find_row id [] = none
find_row id (r ∷ rs) = if r.id == id then some r else find_row id rs

abbrev pub rows_of : ℕ → List OutboxRow → ℕ
rows_of id = sum_by (λ r. if r.id == id then 1 else 0)

no_row_off :
    (id now : ℕ) (rows : List OutboxRow)
    → rows_of id rows ≡ 0
    → All (λ r. (r.id == id) ≡ false) (filter (is_due now) rows)
no_row_off id now [] e = tt
no_row_off id now (r ∷ rs) e =
    let other : (r.id == id) ≡ false = ground arith in
    let rest = no_row_off id now rs (ground arith) in
    elim (Bool-cases (is_due now r)) [
      | inl due ↦ rw due (other, rest)
      | inr skipped ↦ rw skipped rest
    ]

others_due :
    (id now : ℕ) (rows : List OutboxRow) (r : OutboxRow)
    → find_row id rows ≡ some r
    → rows_of id rows ≤ 1
    → is_due now r ≡ false
    → All (λ x. (x.id == id) ≡ false) (filter (is_due now) rows)
unfolding find_row
others_due id now [] r found one off = tt
others_due id now (x ∷ xs) r found one off = elim (Bool-cases (x.id == id)) [
  | inl hit ↦
      let same : x ≡ r = let found' = rw hit at found in cc in
      let off' : is_due now x ≡ false = rw same off in rw off' (no_row_off id now xs (ground arith))
  | inr other ↦
      let rest = others_due id now xs r (rw other at found) (ground arith) off in
      elim (Bool-cases (is_due now x)) [
        | inl due ↦ rw due (other, rest)
        | inr skipped ↦ rw skipped rest
      ]
]

find_row-write_row :
    (id : ℕ) (r : OutboxRow) (rows : List OutboxRow)
    → (r.id == id) ≡ false
    → find_row id (write_row r rows) ≡ find_row id rows
unfolding find_row write_row
find_row-write_row id r [] other = refl
find_row-write_row id r (x ∷ xs) other = elim (Bool-cases (x.id == r.id)) [
  | inl hit ↦ let other' : (x.id == id) ≡ false = ground arith in rw (hit, other, other') refl
  | inr miss ↦ rw (miss, find_row-write_row id r xs other) refl
]

handle_publish_error-id :
    (options : PollerOptions) (now : ℕ) (message : String) (r : OutboxRow)
    → (handle_publish_error options now message r).id ≡ r.id
unfolding handle_publish_error
handle_publish_error-id options now message r = ground arith

module _ (options : PollerOptions) (deliver flush : ℕ → OutboxRow → Option String)
    (clock : ℕ → ℕ) where
  saved_with-id :
      (flushed : Option String) (r saved : OutboxRow)
      → saved_with flushed r ≡ ok saved
      → saved.id ≡ r.id
  saved_with-id none r saved e = cc
  saved_with-id (some message) r saved e = cc

  process_event-id :
      (now : ℕ) (delivered : Option String) (r saved : OutboxRow)
      → after_delivery options deliver flush clock now delivered r ≡ ok saved
      → saved.id ≡ r.id
  process_event-id now none r saved e =
      after (flush now (published options now r)) (published options now r) e
    where
      after :
          (flushed : Option String) (sent : OutboxRow)
          → after_flush options deliver flush clock now flushed sent ≡ ok saved
          → saved.id ≡ sent.id
      after none sent e = cc
      after (some message) sent e =
          let caught = handle_publish_error options now message sent in
          saved_with-id (flush now caught) caught saved e
          ∙ handle_publish_error-id options now message sent
  process_event-id now (some message) r saved e =
      let caught = handle_publish_error options now message r in
      saved_with-id (flush now caught) caught saved e
      ∙ handle_publish_error-id options now message r

  find_row-process_events :
      (id k : ℕ) (rs rows : List OutboxRow)
      → All (λ x. (x.id == id) ≡ false) rs
      → find_row id (process_events options deliver flush clock k rs rows) ≡ find_row id rows
  unfolding process_events
  find_row-process_events id k [] rows others = refl
  find_row-process_events id k (r ∷ rs) rows (other, rest) =
      elim (Result-cases (process_event options deliver flush clock k r)) [
        | inl (saved, e) ↦
            let other' : (saved.id == id) ≡ false =
              rw (process_event-id (clock k) (deliver (clock k) r) r saved e) other in
            rw (process_events-ok options deliver flush clock k r saved rs rows e) (
              find_row-process_events id (suc k) rs (write_row saved rows) rest
              ∙ find_row-write_row id saved rows other')
        | inr (message, failed) ↦
            rw (process_events-err options deliver flush clock k r message rs rows failed) refl
      ]

  -- A batch leaves a row that is published or given up as it is, and does not deliver it again, where
  -- no other row has its id.
  pub run_batch-settled :
      (id : ℕ) (rows : List OutboxRow) (r : OutboxRow)
      → find_row id rows ≡ some r
      → rows_of id rows ≤ 1
      → (is_null r.published_at && is_null r.failed_at) ≡ false
      → (find_row id (run_batch options deliver flush clock rows) ≡ some r)
        × All (λ x. (x.id == id) ≡ false) (due_rows options (clock 0) rows)
  unfolding run_batch
  run_batch-settled id rows r found one ended =
      let off : is_due (clock 0) r ≡ false = not_due (clock 0) r ended in
      let others =
        All-first_rows (λ x. (x.id == id) ≡ false) options.batch_size
          (sort earlier (filter (is_due (clock 0)) rows))
          (All-sort earlier (λ x. (x.id == id) ≡ false) (filter (is_due (clock 0)) rows)
            (others_due id (clock 0) rows r found one off)) in
      (find_row-process_events id 1 (due_rows options (clock 0) rows) rows others ∙ found, others)
    where
      not_due :
          (now : ℕ) (r : OutboxRow)
          → (is_null r.published_at && is_null r.failed_at) ≡ false
          → is_due now r ≡ false
      not_due now r ended = ground arith

-- ===== src/WorkOrder/Operations/Liveness.antt =====
-- How a work order gets to be closed.
use detailing_studio.Prelude.{
  ℕ, ◌≡◌, refl, ◌∙◌, arith, Bool, true, false, none, List, [], ◌∷◌, ◌++◌, String, ok, ◌==◌,
  Option-cases, Bool-cases, inl, inr,
}
use detailing_studio.Shared.Quantity.{of, pcs}
use detailing_studio.WorkOrder.Data.{
  add_event, work_order_consumption_removed, work_order_photo_added, work_order_closing_started,
  work_order_returned_to_in_progress, work_order_closing_reverted, before, after, PhotoRef,
  WorkOrder, WorkOrderStatus, ConsumptionLine, opened, in_progress, awaiting_review, closing,
  closed, cancelled, validate_photo_ref,
}
use detailing_studio.WorkOrder.Deviation.{validate, no_photos}
use detailing_studio.WorkOrder.Operations.{
  status_eq, consume_line, drop_line, auto_transition_to_in_progress, find_by_sku, no_violations,
  add_photo_before, add_photo_after, add_consumption, remove_consumption, return_to_in_progress,
  start_closing, finalize_close, revert_closing,
}
use detailing_studio.WorkOrder.Operations.Lifecycle.{
  photographs_before, photographs_after, consumes, removes_line, returns, starts_closing, finalizes,
  reverts, run_command, Reach, here, next,
}
use detailing_studio.WorkOrder.Operations.Closing.{is_documented, validate_lem}

abbrev pub is_called_off : WorkOrderStatus → Bool
is_called_off cancelled = true
is_called_off s = false

drop_first :
    (id now : ℕ) (l : ConsumptionLine) (ls : List ConsumptionLine) (w : WorkOrder)
    → w.status ≡ in_progress
    → w.lines ≡ l ∷ ls
    → (v : WorkOrder) × (remove_consumption l.id now w ≡ ok v)
      × (v.status ≡ in_progress)
      × (v.lines ≡ ls)
unfolding remove_consumption drop_line
drop_first id now l ls w on lines =
    let same : (l.id == l.id) ≡ true = ground arith in
    (
      add_event (work_order_consumption_removed w.id l.id now)
          (record w { lines = drop_line l.id w.lines }),
      rw (on, lines, same) refl,
      on,
      rw (lines, same) refl,
    )

no_photos_nil : (ps : List PhotoRef) → no_photos ps ≡ true → ps ≡ []
no_photos_nil [] e = refl
no_photos_nil (p ∷ ps) e = absurd (cc)

module _ (string_length : String → ℕ) (trim : String → String) where
  chain :
      {u v w : WorkOrder}
      → Reach string_length trim u v
      → Reach string_length trim v w
      → Reach string_length trim u w
  chain p here = p
  chain p (next c q e) = next c (chain p q) e

  -- Removing the lines, one after the other.
  clear_lines :
      (now : ℕ) (ls : List ConsumptionLine) (w : WorkOrder)
      → w.status ≡ in_progress
      → w.lines ≡ ls
      → (v : WorkOrder) × Reach string_length trim w v × (v.status ≡ in_progress) × (v.lines ≡ [])
  unfolding run_command
  clear_lines now [] w on lines = (w, here, on, lines)
  clear_lines now (l ∷ ls) w on lines =
      let (u, e, on', lines') = drop_first 0 now l ls w on lines in
      let (v, past, on'', none_left) = clear_lines now ls u on' lines' in
      (v, chain (next (removes_line l.id now) here e) past, on'', none_left)

  photograph_missing_before :
      (photo : PhotoRef) (now : ℕ) (w : WorkOrder)
      → validate_photo_ref string_length photo ≡ ok tt
      → w.status ≡ in_progress
      → w.lines ≡ []
      → (v : WorkOrder) × Reach string_length trim w v
        × (v.status ≡ in_progress)
        × (v.lines ≡ [])
        × (no_photos v.photos_before ≡ false)
  unfolding run_command add_photo_before
  photograph_missing_before photo now w fine on lines =
      elim (Bool-cases (no_photos w.photos_before)) [
        | inr some_before ↦ (w, here, on, lines, some_before)
        | inl none_before ↦
            let empty = no_photos_nil w.photos_before none_before in
            let v = add_event (work_order_photo_added w.id photo.id before photo.url now) (
              auto_transition_to_in_progress
                (record w { photos_before = w.photos_before ++ photo ∷ [] })) in
            let e : add_photo_before string_length photo now w ≡ ok v = rw (on, fine, empty) refl in
            (v, next (photographs_before photo now) here e, rw on refl, lines, rw empty refl)
      ]

  photograph_missing_after :
      (photo : PhotoRef) (now : ℕ) (w : WorkOrder)
      → validate_photo_ref string_length photo ≡ ok tt
      → w.status ≡ in_progress
      → w.lines ≡ []
      → no_photos w.photos_before ≡ false
      → (v : WorkOrder) × Reach string_length trim w v
        × (v.status ≡ in_progress)
        × (is_documented string_length v ≡ true)
  unfolding run_command add_photo_after
  photograph_missing_after photo now w fine on lines some_before =
      elim (Bool-cases (no_photos w.photos_after)) [
        | inr some_after ↦ (w, here, on, rw (lines, some_before, some_after) refl)
        | inl none_after ↦
            let empty = no_photos_nil w.photos_after none_after in
            let v = add_event (work_order_photo_added w.id photo.id after photo.url now) (
              auto_transition_to_in_progress
                (record w { photos_after = w.photos_after ++ photo ∷ [] })) in
            let e : add_photo_after string_length photo now w ≡ ok v = rw (on, fine, empty) refl in
            (
              v,
              next (photographs_after photo now) here e,
              rw on refl,
              rw (lines, some_before, empty) refl,
            )
      ]

  -- A documented order in progress is closed by two calls.
  close_documented :
      (now : ℕ) (w : WorkOrder)
      → w.status ≡ in_progress
      → is_documented string_length w ≡ true
      → (v : WorkOrder) × Reach string_length trim w v × (v.status ≡ closed)
  unfolding run_command start_closing finalize_close
  close_documented now w on fine =
      let clean : no_violations (validate string_length w) ≡ true =
        validate_lem string_length w ∙ fine in
      let u = add_event (work_order_closing_started w.id now) (record w { status = closing }) in
      let e : start_closing string_length now w ≡ ok u = rw (clean, on) refl in
      (_, next (finalizes now) (next (starts_closing now) here e) refl, refl)

  -- The calls that bring an order back to work.
  resume :
      (photo : PhotoRef) (reason : String) (now : ℕ) (status : WorkOrderStatus) (w : WorkOrder)
      → w.status ≡ status
      → is_called_off status ≡ false
      → status_eq status closed ≡ false
      → (v : WorkOrder) × Reach string_length trim w v × (v.status ≡ in_progress)
  unfolding run_command return_to_in_progress revert_closing add_consumption
  resume photo reason now opened w on going not_yet =
      let v =
        auto_transition_to_in_progress
          (consume_line (find_by_sku 0 w.lines) 0 (of 0 pcs) now 0 none none w) in
      let e : add_consumption 0 (of 0 pcs) now 0 none none w ≡ ok v = rw on refl in
      let started : v.status ≡ in_progress = elim (Option-cases (find_by_sku 0 w.lines)) [
        | inl fresh ↦ rw (fresh, on) refl
        | inr (l, found) ↦ rw (found, on) refl
      ] in
      (v, next (consumes 0 (of 0 pcs) now 0 none none) here e, started)
  resume photo reason now in_progress w on going not_yet = (w, here, on)
  resume photo reason now awaiting_review w on going not_yet =
      let v =
        add_event (work_order_returned_to_in_progress w.id 0 reason now)
          (record w { status = in_progress }) in
      let e : return_to_in_progress 0 reason now w ≡ ok v = rw on refl in
      (v, next (returns 0 reason now) here e, refl)
  resume photo reason now closing w on going not_yet =
      let v =
        add_event (work_order_closing_reverted w.id reason now)
          (record w { status = in_progress }) in
      let e : revert_closing reason now w ≡ ok v = rw on refl in
      (v, next (reverts reason now) here e, refl)
  resume photo reason now closed w on going not_yet = absurd (cc)
  resume photo reason now cancelled w on going not_yet = absurd (cc)

  -- Every work order that is not cancelled can be closed: there are calls that all succeed and lead
  -- from it to a closed order, once a valid photo is at hand.
  pub can_be_closed :
      (photo : PhotoRef) (reason : String) (now : ℕ) (w : WorkOrder)
      → validate_photo_ref string_length photo ≡ ok tt
      → is_called_off w.status ≡ false
      → (v : WorkOrder) × Reach string_length trim w v × (v.status ≡ closed)
  can_be_closed photo reason now w fine going = elim (Bool-cases (status_eq w.status closed)) [
    | inl done ↦ (w, here, closed_lem w.status done)
    | inr not_yet ↦
        let (a, to_a, on_a) = resume photo reason now w.status w refl going not_yet in
        let (b, to_b, on_b, no_lines) = clear_lines now a.lines a on_a refl in
        let (c, to_c, on_c, lines_c, has_before) =
          photograph_missing_before photo now b fine on_b no_lines in
        let (d, to_d, on_d, ready) =
          photograph_missing_after photo now c fine on_c lines_c has_before in
        let (v, to_v, done) = close_documented now d on_d ready in
        (v, chain (chain (chain (chain to_a to_b) to_c) to_d) to_v, done)
  ]
    where
      closed_lem : (s : WorkOrderStatus) → status_eq s closed ≡ true → s ≡ closed
      closed_lem s e = ground arith

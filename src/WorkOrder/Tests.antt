-- ===== src/WorkOrder/Tests.antt =====
-- The theorems on work orders at a concrete one, which is photographed, consumes a material twice and
-- is closed.
use detailing_studio.Prelude.{
  ℕ, ◌≤◌, ◌≡◌, refl, arith, true, none, some, List, [], ◌∷◌, String, Result, ok, err,
}
use Prim.Native.String.{count}
use detailing_studio.Shared.Quantity.{of, ml}
use detailing_studio.WorkOrder.Data.{
  WorkOrder, WorkOrderError, PhotoRef, ServiceSnapshot, MaterialNorm, image_png, before, opened,
  in_progress, closed, validate_photo_ref,
}
use detailing_studio.WorkOrder.Deviation.{validate, line_violations, calculate_deviation}
use detailing_studio.WorkOrder.Operations.{
  open_from_appointment, draft_lines, find_by_sku, update_by_sku, add_photo_before, add_photo_after,
  add_consumption, start_closing, finalize_close,
}
use detailing_studio.WorkOrder.Operations.Lifecycle.{
  Command, photographs_before, photographs_after, consumes, starts_closing, finalizes, run_command,
  Reach, here, next, IsValid, work_order_history-IsValid,
}
use detailing_studio.WorkOrder.Operations.Closing.{is_documented, closed_is_documented}
use detailing_studio.WorkOrder.Operations.Statuses.{may_follow, run_command-may_follow}
use detailing_studio.WorkOrder.Operations.Lines.{lines_of, one_line_of_sku}
use detailing_studio.WorkOrder.Operations.Consumed.{consumed, add_consumption-consumed}
use detailing_studio.WorkOrder.Operations.Liveness.{can_be_closed}

abbrev id_gen : ℕ → ℕ
id_gen n = n

abbrev trim : String → String
trim s = s

abbrev photo : PhotoRef
photo = record {
  id = 40;
  photo_type = before;
  url = "https://cdn/40.png";
  thumbnail_url = "https://cdn/40t.png";
  mime = image_png;
  size_bytes = 1000;
  uploaded_by = 5;
  uploaded_at = 11;
}

abbrev wash : ServiceSnapshot
wash = record {
  service_id = 8;
  service_name_snapshot = "wash";
  duration_minutes = 60;
  price_cents = 9000;
}

abbrev shampoo : MaterialNorm
shampoo = record { sku_id = 7; sku_name_snapshot = "shampoo"; norm_amount = of 102400 ml }

abbrev or_self : WorkOrder → Result WorkOrderError WorkOrder → WorkOrder
or_self w (ok v) = v
or_self w (err e) = w

abbrev start_order : WorkOrder
start_order = record {
  id = 1;
  appointment_id = 2;
  branch_id = 3;
  master_id = 4;
  client_id = 5;
  vehicle_id = 6;
  services = wash ∷ [];
  norms = shampoo ∷ [];
  lines = draft_lines id_gen 0 (shampoo ∷ []);
  photos_before = [];
  photos_after = [];
  status = opened;
  opened_at = 10;
  closed_at = none;
  cancellation_reason = none;
  events = [];
}

abbrev fresh_order : WorkOrder
fresh_order =
    or_self start_order (open_from_appointment id_gen 2 3 4 5 6 (wash ∷ []) (shampoo ∷ []) 10)

abbrev run_all : List Command → WorkOrder → WorkOrder
run_all [] w = w
run_all (c ∷ cs) w = run_all cs (or_self w (run_command count trim c w))

abbrev job : List Command
job =
    photographs_before photo 11
    ∷ consumes 7 (of 51200 ml) 12 90 none none
    ∷ consumes 7 (of 102400 ml) 13 91 none none
    ∷ photographs_after photo 14
    ∷ starts_closing 15
    ∷ finalizes 16
    ∷ []

abbrev finished : WorkOrder
finished = run_all job fresh_order

history : Reach count trim fresh_order finished
unfolding open_from_appointment draft_lines run_command add_photo_before add_photo_after
    add_consumption start_closing finalize_close validate_photo_ref validate line_violations
    calculate_deviation find_by_sku update_by_sku
history =
    next (finalizes 16)
      (next (starts_closing 15)
        (next (photographs_after photo 14)
          (next (consumes 7 (of 102400 ml) 13 91 none none)
            (next (consumes 7 (of 51200 ml) 12 90 none none)
              (next (photographs_before photo 11) here refl) refl)
            refl)
          refl)
        refl)
      refl

work_order_history-IsValid_example : IsValid finished
unfolding open_from_appointment
work_order_history-IsValid_example =
    work_order_history-IsValid count trim id_gen 2 3 4 5 6 (wash ∷ []) (shampoo ∷ []) 10
      {w = fresh_order} refl history

closed_is_documented_example : is_documented count finished ≡ true
unfolding open_from_appointment draft_lines run_command add_photo_before add_photo_after
    add_consumption start_closing finalize_close validate_photo_ref validate line_violations
    calculate_deviation find_by_sku update_by_sku
closed_is_documented_example =
    closed_is_documented count trim id_gen 2 3 4 5 6 (wash ∷ []) (shampoo ∷ []) 10 {w = fresh_order}
      refl history refl

one_line_of_sku_example : lines_of 7 finished.lines ≤ 1
unfolding open_from_appointment
one_line_of_sku_example =
    one_line_of_sku count trim id_gen 2 3 4 5 6 (wash ∷ []) (shampoo ∷ []) 10 7 {w = fresh_order}
      refl history (omega arith)

run_command-may_follow_example : may_follow opened in_progress ≡ true
unfolding run_command add_photo_before validate_photo_ref
run_command-may_follow_example =
    run_command-may_follow count trim (photographs_before photo 11) start_order
      {v = or_self start_order (add_photo_before count photo 11 start_order)} refl

add_consumption-consumed_example :
    consumed 7 (or_self start_order (add_consumption 7 (of 51200 ml) 12 90 none none start_order))
    ≡ some (of 51200 ml)
unfolding add_consumption
add_consumption-consumed_example =
    add_consumption-consumed 7 7 (of 51200 ml) 12 90 none none start_order
      (or_self start_order (add_consumption 7 (of 51200 ml) 12 90 none none start_order)) refl

can_be_closed_example : (v : WorkOrder) × Reach count trim start_order v × (v.status ≡ closed)
unfolding validate_photo_ref
can_be_closed_example = can_be_closed count trim photo "again" 20 start_order refl refl

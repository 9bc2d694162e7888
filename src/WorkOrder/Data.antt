-- ===== src/WorkOrder/Data.antt =====
-- libs/backend/work-order/domain/src: the value objects (photo-ref.value-object.ts, photo-type.ts,
-- work-order-status.ts, material-norm-snapshot.ts, work-order-service-snapshot.ts), the lines of
-- consumption-line.entity.ts, work-order.errors.ts, work-order.events.ts and the state of
-- work-order.aggregate.ts. Ids and times are numbers. The length of a string is a parameter.
use detailing_studio.Prelude.{
  ℕ, ◌*◌, not, Bool, true, false, ◌||◌, Option, none, some, List, [], ◌∷◌, ◌++◌, String, ltb, ◌==◌,
  if◌then◌else◌, Result, throw_if, ◌>>◌,
}
use detailing_studio.Shared.Quantity.{Quantity, of}

pub data WorkOrderStatus : Type 0 where
  opened in_progress awaiting_review closing closed cancelled : WorkOrderStatus

pub data PhotoType : Type 0 where
  before after : PhotoType

-- The types that are allowed, and the others.
pub data Mime : Type 0 where
  image_jpeg image_png image_heic : Mime
  other_mime : String → Mime

pub record PhotoRef : Type 0 where
  pub id : ℕ
  pub photo_type : PhotoType
  pub url : String
  pub thumbnail_url : String
  pub mime : Mime
  pub size_bytes : ℕ
  pub uploaded_by : ℕ
  pub uploaded_at : ℕ

-- A deviation from the norm: (actual - norm) / norm, or its absolute value, where the norm is not 0.
pub data Ratio : Type 0 where
  zero_ratio infinite_ratio : Ratio
  signed_ratio absolute_ratio : ℕ → ℕ → Ratio

pub data Violation : Type 0 where
  no_before_photo no_after_photo : Violation
  deviation_without_reason : ℕ → ℕ → Ratio → Violation

pub data WorkOrderError : Type 0 where
  invalid_state_transition : WorkOrderStatus → WorkOrderStatus → WorkOrderError
  photo_limit_exceeded : PhotoType → ℕ → WorkOrderError
  consumption_line_not_found photo_not_found : ℕ → WorkOrderError
  services_empty empty_reopen_reason : WorkOrderError
  work_order_closing_validation : List Violation → WorkOrderError
  invalid_photo_mime : Mime → WorkOrderError
  invalid_photo_size invalid_photo_url : ℕ → WorkOrderError

abbrev pub max_size_bytes : ℕ
max_size_bytes = 10 * 1024 * 1024

abbrev pub max_url_length : ℕ
max_url_length = 2048

abbrev allowed_mime : Mime → Bool
allowed_mime image_jpeg = true
allowed_mime image_png = true
allowed_mime image_heic = true
allowed_mime (other_mime s) = false

unfoldable pub validate_photo_ref : (String → ℕ) → PhotoRef → Result WorkOrderError (Unit {0})
validate_photo_ref string_length p = do
  throw_if (not (allowed_mime p.mime)) (invalid_photo_mime p.mime)
  throw_if (p.size_bytes == 0 || ltb max_size_bytes p.size_bytes) (invalid_photo_size p.size_bytes)
  throw_if (ltb (string_length p.url) 1 || ltb max_url_length (string_length p.url))
      (invalid_photo_url (string_length p.url))

pub record ServiceSnapshot : Type 0 where
  pub service_id : ℕ
  pub service_name_snapshot : String
  pub duration_minutes : ℕ
  pub price_cents : ℕ

pub record MaterialNorm : Type 0 where
  pub sku_id : ℕ
  pub sku_name_snapshot : String
  pub norm_amount : Quantity

pub record ConsumptionLine : Type 0 where
  pub id : ℕ
  pub sku_id : ℕ
  pub actual_amount : Quantity
  pub norm_amount : Quantity
  pub deviation_reason : Option String
  pub comment : Option String

abbrev pub draft : ℕ → ℕ → Quantity → ConsumptionLine
draft id sku_id norm_amount = record {
  id = id;
  sku_id = sku_id;
  actual_amount = of 0 norm_amount.unit;
  norm_amount = norm_amount;
  deviation_reason = none;
  comment = none;
}

abbrev pub create : ℕ → ℕ → Quantity → Option String → Option String → ConsumptionLine
create id sku_id actual_amount deviation_reason comment = record {
  id = id;
  sku_id = sku_id;
  actual_amount = actual_amount;
  norm_amount = of 0 actual_amount.unit;
  deviation_reason = deviation_reason;
  comment = comment;
}

-- `??`.
abbrev pub or_else : Option String → Option String → Option String
or_else none s = s
or_else (some s) s' = some s

-- `update`, at an amount that is not negative, as `Quantity.of` makes every amount.
abbrev pub update : Quantity → Option String → Option String → ConsumptionLine → ConsumptionLine
update actual_amount deviation_reason comment l = record l {
  actual_amount = actual_amount;
  deviation_reason = or_else deviation_reason l.deviation_reason;
  comment = or_else comment l.comment;
}

abbrev pub current_deviation_ratio : ConsumptionLine → Ratio
current_deviation_ratio l =
    if l.norm_amount.amount == 0
    then (if l.actual_amount.amount == 0 then zero_ratio else infinite_ratio)
    else absolute_ratio l.actual_amount.amount l.norm_amount.amount

pub record ClosedLine : Type 0 where
  pub line_id : ℕ
  pub sku_id : ℕ
  pub actual_amount : Quantity
  pub norm_amount : Quantity
  pub deviation_ratio : Ratio

pub data WorkOrderEvent : Type 0 where
  work_order_opened :
      ℕ → ℕ → ℕ → ℕ → ℕ → ℕ → List ServiceSnapshot → List MaterialNorm → ℕ → WorkOrderEvent
  work_order_photo_added : ℕ → ℕ → PhotoType → String → ℕ → WorkOrderEvent
  work_order_photo_removed : ℕ → ℕ → PhotoType → ℕ → WorkOrderEvent
  work_order_consumption_added : ℕ → ℕ → ℕ → Quantity → ℕ → WorkOrderEvent
  work_order_consumption_updated : ℕ → ℕ → Quantity → ℕ → WorkOrderEvent
  work_order_consumption_removed : ℕ → ℕ → ℕ → WorkOrderEvent
  work_order_submitted_for_review : ℕ → ℕ → ℕ → WorkOrderEvent
  work_order_returned_to_in_progress work_order_reopened : ℕ → ℕ → String → ℕ → WorkOrderEvent
  work_order_cancelled : ℕ → String → ℕ → ℕ → WorkOrderEvent
  work_order_closing_started : ℕ → ℕ → WorkOrderEvent
  work_order_closing_reverted : ℕ → String → ℕ → WorkOrderEvent
  work_order_closed :
      ℕ → ℕ → ℕ → ℕ → ℕ → ℕ → List ServiceSnapshot → List ClosedLine → ℕ → ℕ → ℕ → WorkOrderEvent

-- The version, which no method changes, is left out.
pub record WorkOrder : Type 0 where
  pub id : ℕ
  pub appointment_id : ℕ
  pub branch_id : ℕ
  pub master_id : ℕ
  pub client_id : ℕ
  pub vehicle_id : ℕ
  pub services : List ServiceSnapshot
  pub norms : List MaterialNorm
  pub lines : List ConsumptionLine
  pub photos_before : List PhotoRef
  pub photos_after : List PhotoRef
  pub status : WorkOrderStatus
  pub opened_at : ℕ
  pub closed_at : Option ℕ
  pub cancellation_reason : Option String
  pub events : List WorkOrderEvent

abbrev pub add_event : WorkOrderEvent → WorkOrder → WorkOrder
add_event e w = record w { events = w.events ++ e ∷ [] }

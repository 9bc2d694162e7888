-- ===== src/Inventory/Receipt.antt =====
-- libs/backend/inventory/domain/src/receipt: receipt.aggregate.ts, receipt-line.ts, receipt.events.ts
-- and receipt.errors.ts. The number of packages, which only the line keeps, is a number over 1024.
pub mod Lifecycle
mod Tests
use detailing_studio.Prelude.{
  ℕ, Bool, true, false, not, Option, none, some, List, [], ◌∷◌, ◌++◌, map, String, ◌==◌, any,
  if◌then◌else◌, Result, ok, err, ◌>>=◌, ◌>>◌, throw_if,
}
use detailing_studio.Shared.Quantity.{Quantity}
use detailing_studio.Shared.Money.{Money}

pub data ReceiptStatus : Type 0 where
  draft posted cancelled : ReceiptStatus

pub data ReceiptError : Type 0 where
  receipt_already_posted receipt_cannot_edit_after_post empty_receipt receipt_not_posted :
      ℕ → ReceiptError

-- `ReceiptLine.create` copies its argument.
pub record ReceiptLine : Type 0 where
  pub id : ℕ
  pub sku_id : ℕ
  pub packaging_id : Option ℕ
  pub package_quantity : ℕ
  pub base_quantity : Quantity
  pub unit_cost : Money
  pub expires_at : Option ℕ

pub record ReceiptLineSnapshot : Type 0 where
  pub sku_id : ℕ
  pub base_quantity : Quantity
  pub unit_cost : Money
  pub expires_at : Option ℕ

pub data ReceiptEvent : Type 0 where
  receipt_created : ℕ → ℕ → ReceiptEvent
  receipt_line_added receipt_line_updated receipt_line_removed : ℕ → ℕ → ℕ → ReceiptEvent
  receipt_invoice_attached : ℕ → String → ℕ → ReceiptEvent
  receipt_posted : ℕ → ℕ → ℕ → List ReceiptLineSnapshot → ℕ → ReceiptEvent
  receipt_cancelled : ℕ → String → ℕ → ReceiptEvent

pub record Receipt : Type 0 where
  pub id : ℕ
  pub supplier_id : ℕ
  pub branch_id : ℕ
  pub status : ReceiptStatus
  pub lines : List ReceiptLine
  pub supplier_invoice_number : Option String
  pub supplier_invoice_date : Option ℕ
  pub attachment_url : Option String
  pub created_by : ℕ
  pub posted_by : Option ℕ
  pub created_at : ℕ
  pub posted_at : Option ℕ
  pub events : List ReceiptEvent

abbrev add_event : ReceiptEvent → Receipt → Receipt
add_event e r = record r { events = r.events ++ e ∷ [] }

unfoldable pub create : ℕ → ℕ → ℕ → ℕ → ℕ → Option String → Option ℕ → Receipt
create id supplier_id branch_id created_by created_at invoice_number invoice_date = record {
  id = id;
  supplier_id = supplier_id;
  branch_id = branch_id;
  status = draft;
  lines = [];
  supplier_invoice_number = invoice_number;
  supplier_invoice_date = invoice_date;
  attachment_url = none;
  created_by = created_by;
  posted_by = none;
  created_at = created_at;
  posted_at = none;
  events = receipt_created id created_at ∷ [];
}

abbrev draft_or : ReceiptStatus → ℕ → Result ReceiptError (Unit {0})
draft_or draft id = ok tt
draft_or posted id = err (receipt_already_posted id)
draft_or cancelled id = err (receipt_cannot_edit_after_post id)

abbrev ensure_draft : Receipt → Result ReceiptError (Unit {0})
ensure_draft r = draft_or r.status r.id

unfoldable pub add_line : ReceiptLine → ℕ → Receipt → Result ReceiptError Receipt
add_line line at r = do
  ensure_draft r
  ok (add_event (receipt_line_added r.id line.id at) (record r { lines = r.lines ++ line ∷ [] }))

abbrev has_line : ℕ → List ReceiptLine → Bool
has_line id = any (λ l. l.id == id)

-- `findIndex`, and the line at the index replaced.
unfoldable pub replace_line : ℕ → ReceiptLine → List ReceiptLine → List ReceiptLine
replace_line id line [] = []
replace_line id line (l ∷ ls) = if l.id == id then line ∷ ls else l ∷ replace_line id line ls

-- `findIndex` and `splice`.
unfoldable pub drop_line : ℕ → List ReceiptLine → List ReceiptLine
drop_line id [] = []
drop_line id (l ∷ ls) = if l.id == id then ls else l ∷ drop_line id ls

unfoldable pub update_line : ℕ → ReceiptLine → ℕ → Receipt → Result ReceiptError Receipt
update_line id line at r = do
  ensure_draft r
  (if has_line id r.lines
      then ok (
          add_event (receipt_line_updated r.id id at)
            (record r { lines = replace_line id line r.lines }))
      else ok r)

unfoldable pub remove_line : ℕ → ℕ → Receipt → Result ReceiptError Receipt
remove_line id at r = do
  ensure_draft r
  (if has_line id r.lines
      then ok
          (add_event (receipt_line_removed r.id id at) (record r { lines = drop_line id r.lines }))
      else ok r)

unfoldable pub attach_invoice_file : String → ℕ → Receipt → Result ReceiptError Receipt
attach_invoice_file url at r = do
  ensure_draft r
  ok (add_event (receipt_invoice_attached r.id url at) (record r { attachment_url = some url }))

abbrev pub no_lines : List ReceiptLine → Bool
no_lines [] = true
no_lines (l ∷ ls) = false

abbrev pub line_snapshot : ReceiptLine → ReceiptLineSnapshot
line_snapshot l = record {
  sku_id = l.sku_id;
  base_quantity = l.base_quantity;
  unit_cost = l.unit_cost;
  expires_at = l.expires_at;
}

unfoldable pub post : ℕ → ℕ → Receipt → Result ReceiptError Receipt
post by at r = do
  ensure_draft r
  throw_if (no_lines r.lines) (empty_receipt r.id)
  ok (
      add_event (receipt_posted r.id r.supplier_id r.branch_id (map line_snapshot r.lines) at)
        (record r { status = posted; posted_by = some by; posted_at = some at }))

abbrev is_posted : ReceiptStatus → Bool
is_posted posted = true
is_posted s = false

unfoldable pub cancel : String → ℕ → Receipt → Result ReceiptError Receipt
cancel reason at r = do
  throw_if (not (is_posted r.status)) (receipt_not_posted r.id)
  ok (add_event (receipt_cancelled r.id reason at) (record r { status = cancelled }))

-- ===== src/Inventory/Receipt/Tests.antt =====
-- The theorems on receipts at a concrete one.
use detailing_studio.Prelude.{refl, none, some, [], ◌∷◌}
use detailing_studio.Shared.Quantity.{ml}
use detailing_studio.Inventory.Receipt.{
  Receipt, ReceiptLine, posted, cancelled, create, add_line, post, receipt_created,
  receipt_line_added, receipt_posted, receipt_cancelled, line_snapshot,
}
use detailing_studio.Inventory.Receipt.Lifecycle.{
  IsValid, here, next, adds, posts, run_command, receipt_history-IsValid,
}

abbrev soap : ReceiptLine
soap = record {
  id = 1;
  sku_id = 7;
  packaging_id = none;
  package_quantity = 1024;
  base_quantity = record { amount = 2048; unit = ml };
  unit_cost = record { cents = 100 };
  expires_at = none;
}

abbrev delivery : Receipt
delivery = record {
  id = 1;
  supplier_id = 2;
  branch_id = 3;
  status = posted;
  lines = soap ∷ [];
  supplier_invoice_number = none;
  supplier_invoice_date = none;
  attachment_url = none;
  created_by = 4;
  posted_by = some 5;
  created_at = 10;
  posted_at = some 12;
  events =
      receipt_created 1 10
      ∷ receipt_line_added 1 1 11
      ∷ receipt_posted 1 2 3 (line_snapshot soap ∷ []) 12
      ∷ [];
}

abbrev returned : Receipt
returned = record delivery {
  status = cancelled;
  events =
      receipt_created 1 10
      ∷ receipt_line_added 1 1 11
      ∷ receipt_posted 1 2 3 (line_snapshot soap ∷ []) 12
      ∷ receipt_cancelled 1 "wrong" 13
      ∷ [];
}

receipt_history-IsValid_example : IsValid delivery
unfolding create run_command add_line post
receipt_history-IsValid_example =
    receipt_history-IsValid 1 2 3 4 10 none none
      (next (posts 5 12) (next (adds soap 11) here refl) refl)

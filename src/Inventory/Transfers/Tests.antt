-- ===== src/Inventory/Transfers/Tests.antt =====
-- The transfer of a bottle between two branches.
use detailing_studio.Prelude.{none, some, List, [], ◌∷◌}
use detailing_studio.Shared.Quantity.{of, ml}
use detailing_studio.Inventory.Batch.{Batch, receipt}
use detailing_studio.Inventory.Stock.State.{Stock}
use detailing_studio.Inventory.Transfers.{
  Transfer, TransferLine, posted, draft, Warehouse, transfer_created, transfer_posted,
}

abbrev bottle : Batch
bottle = record {
  id = 1;
  supplier_id = none;
  source_type = receipt;
  source_doc_id = "R1";
  initial_quantity = of 500 ml;
  remaining_quantity = of 500 ml;
  unit_cost = record { cents = 10 };
  expires_at = none;
  received_at = 1;
}

abbrev shelf : Stock
shelf = record {
  sku_id = 7;
  branch_id = 1;
  base_unit = ml;
  batches = bottle ∷ [];
  reorder_level = of 0 ml;
  average_cost = record { cents = 10 };
  events = [];
}

abbrev shop : Warehouse
shop = record { stocks = shelf ∷ []; outbox = []; processed = [] }

abbrev one_line : List TransferLine
one_line = record { sku_id = 7; quantity = of 200 ml } ∷ []

abbrev drafted : Transfer
drafted = record {
  id = 3;
  from_branch_id = 1;
  to_branch_id = 2;
  status = draft;
  lines = one_line;
  created_by = 4;
  created_at = 5;
  posted_by = none;
  posted_at = none;
  events = transfer_created 3 5 ∷ [];
}

abbrev sent_off : Transfer
sent_off = record drafted {
  status = posted;
  posted_by = some 4;
  posted_at = some 6;
  events = transfer_created 3 5 ∷ transfer_posted 3 1 2 one_line 4 6 ∷ [];
}

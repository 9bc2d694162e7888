-- ===== src/Inventory.antt =====
-- libs/backend/inventory: stock per SKU and branch, and the documents that move it.
pub mod Batch
pub mod Selection
pub mod Stock
pub mod StockTaking
pub mod Transfers
pub mod Adjustment
pub mod Receipt
mod Tests

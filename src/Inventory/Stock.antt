-- ===== src/Inventory/Stock.antt =====
-- libs/backend/inventory/domain/src/stock/stock.aggregate.ts: the stock of one SKU at one branch.
-- A method returns the new aggregate, with the events that it adds at the end of `events`, or the
-- error that it throws; the callers drop an aggregate whose method threw. The ids that `idGen`
-- hands out are an argument.
pub mod Events
pub mod State
pub mod Movement
pub mod Conservation
pub mod Allocation
pub mod Coverage
pub mod Lots
pub mod Transfer
pub mod Receiving
pub mod Alerts
pub mod Invariant

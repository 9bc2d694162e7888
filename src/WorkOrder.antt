-- ===== src/WorkOrder.antt =====
-- libs/backend/work-order/domain/src: the work orders, the photos and the materials of a job.
pub mod Data
pub mod Deviation
pub mod Operations
mod Tests

-- ===== src/Billing.antt =====
-- libs/backend/billing/domain/src: subscriptions, their invoices, and the limits of the plans.
pub mod Subscription
pub mod Invoice
pub mod Limits
mod Tests

-- ===== src/Shared.antt =====
-- libs/backend/shared/ddd/src: the value objects that every part of the backend uses.
-- A `DateTime` is its milliseconds since the epoch. Identifiers are only compared, so they are
-- numbers.
pub mod Quantity
pub mod Money

-- ===== src/Lib.antt =====
-- Detailing Studio: the domain model of the backend, with proofs.
--
-- The backend keeps each part of the business in an aggregate: a class whose methods check their
-- conditions, throw an error or change the fields, and record events. An aggregate is a record
-- here; a method is a function from its arguments and the aggregate to a `Result`, the changed
-- aggregate or the error, with the events as a field. The files:
--
-- - Shared: libs/backend/shared/ddd/src, the quantities (Shared/Quantity) and the sums of money
--   (Shared/Money) that the other parts compute with.
-- - Inventory: libs/backend/inventory/domain/src. Batch is batch.entity.ts; Selection is the FEFO
--   and FIFO service that chooses batches; Stock/State and Stock/Movement are the methods of
--   stock.aggregate.ts (receive, consume, adjust, transferOut, transferIn, changeReorderLevel,
--   removeBatchesBySourceDoc). Stock takes the selection service as an argument, as its methods
--   do. Receipt, StockTaking and Adjustment are receipt.aggregate.ts, stock-taking.aggregate.ts and
--   adjustment.aggregate.ts. Transfers is transfer.aggregate.ts with the saga that applies a
--   transfer (application/src/sagas) to the table of the stocks.
-- - Scheduling: libs/backend/scheduling/domain/src. Hours is the times of a day and the working
--   days; BranchSchedule and MasterSchedule are the aggregates of the opening hours of a branch
--   and of the hours of a master; Appointment is appointment.aggregate.ts with its table of
--   transitions. Availability is availability-calculator.ts, which brings them together: it
--   intersects the hours of a branch and a master, takes out the appointments (Intervals), and
--   lists the slots on the grid that are left.
-- - Billing: libs/backend/billing/domain/src, the subscriptions, the invoices and the report on
--   the limits of a plan.
-- - WorkOrder: libs/backend/work-order/domain/src. WorkOrder/Data is the state, the photos and the
--   lines; Deviation is the validator of the closing (closing-validator.ts, with
--   norm-deviation-calculator.ts); Operations is the methods of work-order.aggregate.ts with the
--   table of transitions.
-- - Iam: libs/backend/iam. Session and Otp are the aggregates of a refresh session and of a code
--   sent by phone; Sessions and Login are the handlers of the application that refresh, log out,
--   request a code and log in, over the tables of the repositories; User is user.aggregate.ts with
--   the handler that blocks a user; Invitation is invitation.aggregate.ts.
-- - Outbox: libs/backend/shared/outbox/src, the rows of the events and the batches of the poller
--   that hands them to the sagas.
-- - Notification: libs/backend/notifications/domain/src/notification, a notification with its
--   attempts of delivery.
-- - Prelude: tests on numbers, lists, sorting, results and integers, with their lemmas.
--
-- How values are read. An id is a number, and so is a time: the milliseconds from the epoch on,
-- which is not negative. An amount in stock is a JavaScript number; it is taken as a fraction over
-- 1024, and products with a price are rounded as the code rounds them. A price is a whole number
-- of kopecks, which the code keeps as a bigint, so nothing overflows. A `Map` from the day of the
-- week is a function, with `none` for a day that is closed or missing. What the code gets from
-- elsewhere is an argument: the ids of the generator, the current time, the selector of batches,
-- the test of a date by its pattern (`is_iso_date`), and the calendar of `Date`, which prints the
-- date of a day (`format_date`) and adds days and months (`plus_days`, `plus_months`).
--
-- Loops over lists are recursions on them. Two loops of the calculator count up by a step, over
-- the days of the search and over the starts of the slots in a window; they run on fuel. Windows
-- lie within a day, so fuel above 1440 minutes, and above the days of the search, is enough where
-- the step is not 0. The calculator's cache by master and date is left out, since an entry is the
-- value that would be computed again.
--
-- Where a handler works on rows that are stored, the table is a list and each `save` writes a row
-- and moves the events to an outbox; a handler that may throw after a `save` gives the table that
-- it leaves together with its result. A row is found by the first match. The hash of a token or a
-- code is an argument (`hash_fn`), and so are the generated tokens, the length and the trimming of
-- a string, what the handlers of an event answer (`deliver`), and whether a row of the outbox is
-- written or the write fails (`flush`).
--
-- Quantities in different units. The validator of the closing and the stock taking compute with
-- the numbers of quantities and do not look at their units; so do their models.
--
-- Not modelled: the snapshots and `restore`, `equals` and printing; the stock keeping units and
-- the suppliers; the bays and branches; the catalog and the clients; the preferences and the
-- templates of the notifications; most handlers and sagas of the application layers, which load
-- an aggregate, call it and save it; the queries, the controllers and the apps. The unique id of
-- an outbox row, and transactions that run at the same time, are left out.
pub mod Prelude
pub mod Shared
pub mod Inventory
pub mod Scheduling
pub mod Billing
pub mod Iam
pub mod WorkOrder
pub mod Outbox
pub mod Notification

-- ===== src/Scheduling.antt =====
-- libs/backend/scheduling/domain/src: opening hours, masters' hours, appointments and the slots that
-- are free.
pub mod Hours
pub mod Intervals
pub mod BranchSchedule
pub mod MasterSchedule
pub mod Appointment
pub mod Availability
mod Tests

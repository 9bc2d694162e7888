-- ===== src/Iam.antt =====
-- libs/backend/iam: sessions with their refresh tokens, and logging in by a one-time code.
pub mod Session
pub mod Sessions
pub mod Otp
pub mod Login
pub mod User
pub mod Invitation
mod Tests
mod UserTests

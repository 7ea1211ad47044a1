-- ===== src/Schema/Migration.antt =====
-- The tables that the initial migration creates, in files by subject.
pub mod Community
pub mod Residents
pub mod Calls
pub mod Billing
pub mod Sync

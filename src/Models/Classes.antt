-- ===== src/Models/Classes.antt =====
-- The mapped classes, in files by subject.
pub mod Community
pub mod Residents
pub mod Calls
pub mod Billing
pub mod Sync

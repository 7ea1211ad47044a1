-- ===== src/Tests.antt =====
-- Tests, and the theorems at concrete inputs.
mod Sample
mod SampleOrm
mod Scenario
mod Writes
mod Books
mod Migrations
mod Processes
mod Tickets
mod Examples
mod Checks
mod Edits
mod Forms
mod Server

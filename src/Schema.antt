-- ===== src/Schema.antt =====
-- The database schema: its description, the tables of the migration, their agreement with the models,
-- the trigger that counts versions, the ledger with its view of balances, and the scripts of the migration.
pub mod Ddl
pub mod Migration
pub mod Entities
pub mod Agreement
pub mod Versions
pub mod Ledger
pub mod Balances
pub mod Catalog

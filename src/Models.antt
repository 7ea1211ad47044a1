-- ===== src/Models.antt =====
-- The enumerations and classes of `models/`.
pub mod Enums
pub mod User
pub mod Mapping
pub mod Classes

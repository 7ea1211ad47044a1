-- ===== src/AuthService.antt =====
-- `civio-cloud/src/services/auth_service.py`
pub mod Data
pub mod Defs
pub mod Steps
pub mod LogIn
pub mod Guessing
pub mod Success
pub mod Lifecycle
pub mod Race
pub mod Reuse
pub mod Refresh
pub mod Effects
pub mod Soundness
pub mod Machine

-- ===== src/Repositories.antt =====
-- `civio-cloud/src/repositories`
pub mod UserRepo
pub mod BaseRepo
pub mod Refinement

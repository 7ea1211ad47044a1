-- ===== src/Dependencies.antt =====
-- `civio-cloud/src/core/dependencies.py`: who makes a request, and what the role allows.
pub mod Defs
pub mod Laws
pub mod Logins
pub mod Roles

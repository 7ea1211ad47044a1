-- ===== src/Security.antt =====
-- `civio-cloud/src/core/security.py`: one-time codes, password hashes, and the JWTs.
pub mod Otp
pub mod Tokens
pub mod Passwords

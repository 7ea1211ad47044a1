-- ===== src/System.antt =====
-- The API server as a whole: requests of `api/v1/auth.py` that run at once, each in its own session, with the
-- tokens that were handed out and with what was sent to whom.
pub mod Defs
pub mod Writes
pub mod Provenance
pub mod Steps
pub mod Renewing
pub mod Untouched
pub mod Liveness
pub mod Authentic
pub mod Answers

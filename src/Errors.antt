-- ===== src/Errors.antt =====
-- `civio-cloud/src/core/exceptions.py` and the token errors of `core/security.py`: the exception
-- classes with their class attributes, raised values, and the three handlers.
pub mod Classes
pub mod Handlers
pub mod Outcome
pub mod Laws

-- ===== src/Api.antt =====
-- `civio-cloud/src/api/v1/auth.py` with `core/database.py` and `schemas/auth.py`: the requests and
-- their transactions.
pub mod Defs
pub mod Transactions
pub mod Schemas
pub mod Requests
pub mod Refusals
pub mod Answers

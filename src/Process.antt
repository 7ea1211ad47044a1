-- ===== src/Process.antt =====
-- The processes around the requests: `core/logging.py`, the start and the end of the application in
-- `main.py` with `core/redis_client.py`, and `migrations/env.py`.
pub mod Logging
pub mod Lifespan
pub mod Alembic

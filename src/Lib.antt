-- ===== src/Lib.antt =====
-- Verification library of civio-cloud, the API server of Civio (`civio-cloud/src`).
--
-- A resident logs in with a one-time code: `POST /auth/otp/send` stores a challenge in Redis, `POST
-- /auth/otp/verify` exchanges the code for an access and a refresh token, `POST /auth/refresh`
-- exchanges the refresh token for new ones, and every other request is let in by its access token. An
-- exception of any part becomes a JSON response by the handlers of `core/exceptions.py`. The tables are
-- declared twice, by the classes of `models/` and by the initial migration.
--
-- Parts and files:
--   AuthService   `services/auth_service.py`: Data (challenge, readings, packages) and Defs, where
--                 `send_otp`, `verify_otp` and `refresh_tokens` are `send_otp`, `verify_otp` and
--                 `refresh`; a state is the Redis store and the database session of the request
--                 (`World`), and an exception keeps the state it was raised in. Race splits
--                 `verify_otp` at its read of Redis, which is where other requests can run between;
--                 Effects and Soundness are about what a request changes and what Redis can hold; Reuse
--                 is about calls that overlap with the right code; Machine is the specification of a
--                 challenge as a machine of its own.
--   Security      `core/security.py`: Otp (`generate_otp`), Tokens (`_build_token`, `decode_token`) and
--                 Passwords (over passlib, which is a parameter).
--   Dependencies  `core/dependencies.py`: `get_current_user`, `require_role`,
--                 `get_current_community_id`.
--   Api           `api/v1/auth.py`, the records of `schemas/auth.py`, and `get_db` of
--                 `core/database.py`: each endpoint in its transaction, and the validation of `mobile`
--                 and of `code`. Refusals and Answers give the status with which the errors of the
--                 service are answered.
--   Errors        `core/exceptions.py`: the classes with their inherited attributes, the handlers, and
--                 the dispatch on the classes of an exception.
--   Config        `core/config.py`: `Settings`, its check and its defaults.
--   Repositories  `repositories/user_repo.py` (UserRepo) and `repositories/base.py` (BaseRepo, whose
--                 five methods run in a session with its new and deleted instances).
--   Models        `models/`: the enumerations, the row of a user, and the mapped classes.
--   Schema        `migrations/versions/61aa11b09d9f_initial_schema.py`: the tables and indexes of
--                 `upgrade`, and in Versions the trigger function `tg_bump_community_version` on the
--                 tables it is attached to; in Ledger the table `token_ledger` with its check, keys and
--                 triggers, in Balances the query of the view over it, whose rows are those of the last
--                 refresh; in Catalog the scripts of `upgrade` and `downgrade` on the objects of a
--                 database.
--   Process       `core/logging.py` (Logging), the start and the end of the application in `main.py`
--                 with `core/redis_client.py` (Lifespan), and `migrations/env.py` (Alembic).
--   System        the server as a whole: the store of Redis, the calls of `verify_otp` that wait, the
--                 tokens that were handed out and a log of what was sent to whom, and the requests as
--                 steps, each in a session on whatever database other programs have left.
--   Platform      the packages that the code calls, as records of operations with the laws that their
--                 documentation states: Redis (SETEX, GET, SET KEEPTTL, DEL), a SQLAlchemy session as
--                 the services use it (Session) and as the base repository does (Orm), jose and
--                 pydantic for tokens, json, and uuid. Tests/Sample has one instance that meets all the
--                 laws.
--   Action, Base  the state and exception monad; shared tests, lists, texts and dicts.
--
-- A UUID is a number, a `str` of a request a list of code points, a `str` that is only compared or stored
-- a native string. Redis times are seconds and token times microseconds, each read at its own time
-- (`Readings`). Only the decimal digits of a number take fuel, one more than the number, which is
-- enough; the program has no loop but those over lists. The three `int` settings are natural numbers:
-- negative values are left out, and a time to live of 0 for challenges is the error that Redis answers
-- it with.
--
-- Not modelled: a Redis or a database that cannot be reached (the errors of Redis are those of a refused
-- command, and those of the database are refused statements and commits), the creation of engines and
-- clients, `get_logger`, and the constraints and sequences that PostgreSQL names itself. What a call logs
-- is left out, but for the lines of the start and the end.
pub mod Base
pub mod Errors
pub mod Security
pub mod Platform
pub mod Process
pub mod Config
pub mod Models
pub mod Action
pub mod Repositories
pub mod AuthService
mod Tests
pub mod Dependencies
pub mod Api
pub mod Schema
pub mod System

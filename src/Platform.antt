-- ===== src/Platform.antt =====
-- What the service uses of code that is not in the repository, as parameters with their documented
-- laws: UUIDs, JSON, the JWT library, model validation, the Redis server and the database session.
pub mod Uuid
pub mod Jwt
pub mod Redis
pub mod Json
pub mod Session
pub mod Orm

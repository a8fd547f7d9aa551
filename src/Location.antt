-- ===== src/Location.antt =====
-- mods/location/src: the location service, from addresses of record to routes.
pub mod Types
pub mod Helper
pub mod Utils
pub mod MemoryStore
pub mod Service
pub mod Client
pub mod RedisStore
pub mod Cache

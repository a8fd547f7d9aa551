-- ===== src/Registry.antt =====
-- mods/registry/src: the service that keeps Routr registered with the trunks of its providers.
pub mod Types
pub mod Store
pub mod Request
pub mod Service
pub mod RedisStore
pub mod Cache

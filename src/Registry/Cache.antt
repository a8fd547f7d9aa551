-- ===== src/Registry/Cache.antt =====
-- The choice of the store, `buildStore` of mods/registry/src/utils.ts, and the cache of
-- mods/registry/src/config/get_config.ts.
use routr.Prelude.{
  Option, Result, ok, ◌>>=◌, ◌==◌, string_eq, option_eq, some, if◌then◌else◌, defined,
}
use routr.Common.Redis.{CacheConfig, StoreKind, memory, redis_store, with_cache}

-- A configuration without a cache, or a Redis one without parameters, throws a TypeError.
unfoldable pub build_store : Option CacheConfig → Result StoreKind
unfolding redis_store
build_store config = do
  cache ← defined config
  if cache.provider == some "redis" then redis_store cache.parameters else ok memory

-- config/get_config.ts
unfoldable pub get_config : Option CacheConfig → CacheConfig
unfolding with_cache
get_config cache = with_cache "memory" "redis" cache

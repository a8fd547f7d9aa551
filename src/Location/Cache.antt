-- ===== src/Location/Cache.antt =====
-- The choice of the store in mods/location/src/service.ts, and the cache of
-- mods/location/src/config/get_config.ts.
use routr.Prelude.{
  String, Bool, false, Option, none, some, Result, ok, ◌>>=◌, ◌==◌, string_eq, if◌then◌else◌,
  defined, to_upper,
}
use routr.Common.Redis.{CacheConfig, StoreKind, memory, redis_store, with_cache}

abbrev is_redis : Option String → Bool
is_redis none = false
is_redis (some provider) = to_upper provider == "REDIS"

-- A configuration without a cache throws a TypeError.
unfoldable pub location_service : Option CacheConfig → Result StoreKind
unfolding redis_store to_upper
location_service config = do
  cache ← defined config
  if is_redis cache.provider then redis_store cache.parameters else ok memory

-- config/get_config.ts
unfoldable pub get_config : Option CacheConfig → CacheConfig
unfolding with_cache
get_config cache = with_cache "MEMORY" "REDIS" cache

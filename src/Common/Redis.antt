-- ===== src/Common/Redis.antt =====
-- mods/common/src/redis.ts, and the parameters of a cache as they are written in a configuration:
-- `configFromString`, of mods/location/src/utils.ts and mods/registry/src/utils.ts.
pub mod Settings
use routr.Prelude.{
  ℤ, String, Bool, true, false, not, ◌&&◌, truthy, option_eq, List, [], ◌∷◌, Option, none, some,
  Error, error, Result, ok, err, type_error, ◌==◌, string_eq, any, head?, get_or, split, template,
  if◌then◌else◌, get_elem?,
}
use routr.Prelude.Exec.{Exec, pure, lift, ◌>>=◌}
use routr.Prelude.Maps.{Map, lookup, insert}

-- A parameter: `true`, or the text after "=", which may be missing.
pub data Setting : Type 0 where
  on : Setting
  literal : Option String → Setting

abbrev pub setting : Option String → Setting
setting none = literal none
setting (some s) = if s == "true" then on else literal (some s)

abbrev pub invalid_parameters : String → Error
invalid_parameters params = error (
    template (
      "invalid parameters string: " ∷ params
      ∷ "; should be something like 'host=localhost,port=6379'" ∷ []))

-- What `forEach` makes of the parts, on the parameters so far. The exception for a key that is not
-- allowed is replaced.
unfoldable pub add_parameters :
    String → List String → List String → Map Setting → Result (Map Setting)
unfolding insert split
add_parameters params allowed [] parameters = ok parameters
add_parameters params allowed (par ∷ pars) parameters =
    let parts = split b'=' par in
    let key = get_or (get_elem? parts 0) "" in
    let next = insert key (setting (get_elem? parts 1)) parameters in
    let rest = add_parameters params allowed pars next in
    if any (λ k. k == key) allowed then rest else err (invalid_parameters params)

unfoldable pub config_from_string : String → List String → Result (Map Setting)
unfolding add_parameters split
config_from_string params allowed =
    if params == "" then ok [] else add_parameters params allowed (split b',' params) []

-- `config.secure` and the others as conditions, and in a template.
abbrev pub is_truthy : Option Setting → Bool
is_truthy none = false
is_truthy (some on) = true
is_truthy (some (literal none)) = false
is_truthy (some (literal (some s))) = if s == "" then false else true

abbrev pub written : Option Setting → String
written none = "undefined"
written (some on) = "true"
written (some (literal none)) = "undefined"
written (some (literal (some s))) = s

-- The parameters stand for the `RedisStoreConfig`, to which they are cast.
unfoldable pub get_redis_url_from_config : Map Setting → String
unfolding lookup
get_redis_url_from_config config =
    let username = lookup "username" config in
    let password = lookup "password" config in
    template (
      "redis"
      ∷ (if is_truthy (lookup "secure" config) then "s" else "")
      ∷ "://"
      ∷ (if is_truthy username then written username else "")
      ∷ (if is_truthy password then template (":" ∷ written password ∷ "@" ∷ []) else "")
      ∷ written (lookup "host" config)
      ∷ ":"
      ∷ written (lookup "port" config)
      ∷ [])

-- createClient(...), of the package `redis`. `scan` is all that `scanIterator` gives for a pattern.
pub record RedisClient (C : Type 0) : Type 0 where
  -- set(key, value, { EX })
  pub set : String → String → Option ℤ → Exec C (Unit {0})
  pub get : String → Exec C (Option String)
  pub scan : String → Exec C (List String)
  pub del : String → Exec C (Unit {0})

-- JSON.stringify, and JSON.parse of what is stored under a key: `null` for nothing.
pub record Json (A : Type 0) : Type 0 where
  pub stringify : A → String
  pub parse : Option String → Result (Option A)

-- The loop of both stores over the keys that a scan gives.
unfoldable pub read_all :
    {C A : Type 0} → RedisClient C → Json A → List String → Exec C (List (Option A))
read_all client json [] = pure []
read_all client json (k ∷ ks) = client.get k >>= λ value.
    lift (json.parse value) >>= λ parsed. read_all client json ks >>= λ rest. pure (parsed ∷ rest)

-- new RedisStore(...) of the address of the server, or new MemoryStore().
pub data StoreKind : Type 0 where
  redis : String → StoreKind
  memory : StoreKind

pub record CacheConfig : Type 0 where
  pub provider : Option String
  pub parameters : Option String

abbrev pub allowed_parameters : List String
allowed_parameters = "host" ∷ "port" ∷ "username" ∷ "password" ∷ "secure" ∷ []

abbrev map_result : Result (Map Setting) → Result StoreKind
map_result (ok settings) = ok (redis (get_redis_url_from_config settings))
map_result (err e) = err e

-- configFromString throws a TypeError for parameters that are `undefined`.
unfoldable pub redis_store : Option String → Result StoreKind
unfolding config_from_string get_redis_url_from_config
redis_store none = err type_error
redis_store (some parameters) = map_result (config_from_string parameters allowed_parameters)

abbrev default_parameters : String
default_parameters = "host=localhost,port=6379"

-- What `getConfig` makes of the cache of a configuration that is valid, for the names that the module
-- has for the store in memory and for Redis.
unfoldable pub with_cache : String → String → Option CacheConfig → CacheConfig
with_cache in_memory in_redis none = record { provider = some in_memory; parameters = none }
with_cache in_memory in_redis (some cache) =
    if not (truthy cache.provider)
    then record { provider = some in_memory; parameters = none }
    else if cache.provider == some in_redis && not (truthy cache.parameters)
    then record { provider = some in_redis; parameters = some default_parameters }
    else cache

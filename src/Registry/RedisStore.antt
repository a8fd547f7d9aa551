-- ===== src/Registry/RedisStore.antt =====
-- mods/registry/src/redis_store.ts, over the client that the package `redis` makes.
use routr.Prelude.{
  String, List, [], ◌∷◌, Option, none, some, ok, err, template, truthy, option_eq, string_eq,
  if◌then◌else◌, type_error,
}
use routr.Prelude.Exec.{Exec, pure, lift, ◌>>=◌}
use routr.Common.Redis.{RedisClient, Json, read_all}
use routr.Registry.Types.{RegistrationEntry}

abbrev key_prefix : String
key_prefix = "registry"

abbrev pub redis_key : String → String
redis_key key = template (key_prefix ∷ ":" ∷ key ∷ [])

module _ {C : Type 0} (client : RedisClient C) where
  unfoldable pub put : Json RegistrationEntry → String → RegistrationEntry → Exec C (Unit {0})
  put json key entry =
      client.set (redis_key key) (json.stringify entry) (some entry.retention_time_in_seconds)

  unfoldable pub list : Json RegistrationEntry → Exec C (List (Option RegistrationEntry))
  unfolding read_all
  list json = client.scan (redis_key "*") >>= read_all client json

  -- An empty text is a condition that is false, as `null` is.
  unfoldable pub get : Json RegistrationEntry → String → Exec C (Option RegistrationEntry)
  get json key = client.get (redis_key key) >>= λ raw_entry.
      if truthy raw_entry then lift (json.parse raw_entry) else pure none

-- The method is looked up as `client.delete`, a property that may be `undefined`; it is not awaited.
unfoldable pub delete :
    {C : Type 0} → Option (String → Exec C (Unit {0})) → String → Exec C (Unit {0})
delete none key c = (err type_error, c)
delete (some client_delete) key c = (ok tt, (client_delete (redis_key key) c).1)

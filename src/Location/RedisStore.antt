-- ===== src/Location/RedisStore.antt =====
-- mods/location/src/redis_store.ts, over the client that the package `redis` makes.
pub mod Shared
use routr.Prelude.{
  show_number, ℤ, String, List, [], ◌∷◌, Option, none, some, Result, ok, err, type_error, template,
  shown,
}
use routr.Prelude.Exec.{Exec, pure, throw, lift, ◌>>=◌, ◌>>◌}
use routr.Sip.{Route}
use routr.Common.Redis.{RedisClient, Json, read_all}

abbrev pub pattern_of : String → String
pattern_of key = template (key ∷ ":*" ∷ [])

abbrev pub redis_key : String → Route → String
redis_key key route =
    template (key ∷ ":" ∷ shown route.user ∷ route.host ∷ show_number route.port ∷ [])

module _ {C : Type 0} (client : RedisClient C) where
  module _ (json : Json Route) where
    unfoldable pub put : String → Option Route → Exec C (Unit {0})
    put key none = throw type_error
    put key (some route) = client.set (redis_key key route) (json.stringify route) route.expires

    unfoldable pub get : String → Exec C (List (Option Route))
    get key = client.scan (pattern_of key) >>= read_all client json

  unfoldable pub delete_all : List String → Exec C (Unit {0})
  delete_all [] = pure tt
  delete_all (k ∷ ks) = client.del k >> delete_all ks

  unfoldable pub delete : String → Exec C (Unit {0})
  unfolding delete_all
  delete key = client.scan (pattern_of key) >>= delete_all

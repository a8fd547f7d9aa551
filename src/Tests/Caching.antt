-- ===== src/Tests/Caching.antt =====
-- The stores over Redis, a list of keys and values that matches the patterns that end in a star.
use routr.Prelude.{
  String, ◌≡◌, refl, Bool, true, List, [], ◌∷◌, Option, none, some, Result, ok, Memᴰ, All, ◌==◌,
  string_eq, if◌then◌else◌, eq_iff, sym, show_number, nat_eq, Bool-cases, inl, inr,
}
use Prim.Native.Char.{code}
use routr.Prelude.Splits.{lacks, join}
use text.Mathlib.Text.{starts_with}
use routr.Prelude.Maps.{Map, lookup, insert, erase, lookup-insert}
use routr.Sip.{Route}
use routr.Common.Redis.{
  RedisClient, Json, Setting, setting, config_from_string, get_redis_url_from_config, redis_store,
  redis,
}
use routr.Common.Redis.Settings.{IsWritable, config_from_string-written}
use routr.Location.RedisStore.{put, get}
use routr.Location.RedisStore.Shared.{RedisLaws, IsParsed, redis_get-put}
use routr.Location.Service.{call_key}
use routr.Location.Cache.{location_service, get_config}
use routr.Tests.Data.{near}

caching : Unit {0}
unfolding config_from_string get_redis_url_from_config location_service get_config put get
caching = tt

unfoldable until_star : String → String
until_star String.[] = ""
until_star (String.◌∷◌ c s) = if code c == b'*' then "" else String.◌∷◌ c (until_star s)

abbrev matches : String → String → Bool
matches pattern key = starts_with key (until_star pattern)

unfoldable scanned : String → Map String → List String
unfolding until_star
scanned pattern [] = []
scanned pattern ((k, v) ∷ m) =
    let rest = scanned pattern m in if matches pattern k then k ∷ rest else rest

abbrev client : RedisClient (Map String)
client = record {
  set = λ k v expires m. (ok tt, insert k v m);
  get = λ k m. (ok (lookup k m), m);
  scan = λ p m. (ok (scanned p m), m);
  del = λ k m. (ok tt, erase k m);
}

scanned-Mem :
    (p k v : String) (m : Map String)
    → lookup k m ≡ some v
    → matches p k ≡ true
    → Memᴰ k (scanned p m)
unfolding lookup scanned
scanned-Mem p k v [] h match = cc
scanned-Mem p k v ((j, w) ∷ m) h match = elim (Bool-cases (j == k)) [
  | inl same ↦
      let e : j ≡ k = (eq_iff j k).0 same in
      let taken : matches p j ≡ true = rw e match in rw taken (Memᴰ.head (sym e))
  | inr other ↦
      let later = scanned-Mem p k v m (rw other at h) match in
      elim (Bool-cases (matches p j)) [
        | inl taken ↦ rw taken (Memᴰ.tail later)
        | inr left ↦ rw left later
      ]
]

abbrev Always : Map String → Type 0
Always m = Unit {0}

abbrev held : Map String → String → Option String
held m k = lookup k m

client-RedisLaws : RedisLaws client held matches Always
client-RedisLaws = record {
  get_eq = λ k c good. refl;
  scan_eq = λ p c good. (scanned p c, refl, λ k v h match. scanned-Mem p k v c h match);
  set_eq = λ k v n c good. (insert k v c, refl, tt, λ j. lookup-insert k j v c);
}

-- One text stands for every route.
abbrev parse : Option String → Result (Option Route)
parse none = ok none
parse (some s) = ok (some near)

abbrev json : Json Route
json = record { stringify = λ r. "near"; parse = parse }

parsed : IsParsed client-RedisLaws json []
unfolding lookup
parsed k = (none, refl)

-- The route that is remembered for a call is read for the address too.
abbrev aor : String
aor = "sip:1002@sip.local"

redis_get-put_example :
    (rs : List (Option Route)) × ((get client json aor
        (put client json (call_key aor "call-1") (some near) []).1).0
      ≡ ok rs)
    × Memᴰ (some near) rs
unfolding caching show_number until_star
redis_get-put_example =
    redis_get-put client-RedisLaws json (call_key aor "call-1") aor near 599 [] tt parsed refl refl
      refl

abbrev allowed : List String
allowed = "host" ∷ "port" ∷ "secure" ∷ []

abbrev host : String × String
host = ("host", "localhost")

abbrev secure : String × String
secure = ("secure", "false")

host-IsWritable : IsWritable allowed host
unfolding lacks
host-IsWritable = record {
  is_allowed = refl;
  key_plain = refl;
  value_plain = refl;
  no_comma = refl;
}

secure-IsWritable : IsWritable allowed secure
unfolding lacks
secure-IsWritable = record {
  is_allowed = refl;
  key_plain = refl;
  value_plain = refl;
  no_comma = refl;
}

config_from_string-written_example :
    (m : Map Setting) × (config_from_string "host=localhost,secure=false" allowed ≡ ok m)
    × All (λ e. lookup e.0 m ≡ some (setting (some e.1))) (host ∷ secure ∷ [])
unfolding join
config_from_string-written_example =
    config_from_string-written allowed host (secure ∷ []) (host-IsWritable, (secure-IsWritable, tt))
      ((λ e. absurd (cc), tt), (tt, tt))

-- A cache of Redis without parameters is the local server.
default_redis_test :
    location_service
      (some (get_config (some (record { provider = some "REDIS"; parameters = none }))))
    ≡ ok (redis "redis://localhost:6379")
unfolding caching
default_redis_test = refl

-- Whatever `secure` is set to, the connection is a secure one; a user without a password runs into
-- the host.
secure_false_test :
    redis_store (some "host=h,port=1,secure=false,username=u") ≡ ok (redis "rediss://uh:1")
unfolding caching
secure_false_test = refl

-- ===== src/Location/RedisStore/Shared.antt =====
-- Which reads of the Redis store give a route: those whose pattern its Redis key matches.
use routr.Prelude.{
  suc, ℕ, pos, String, ◌≡◌, refl, sym, ap, ◌∙◌, Bool, true, List, [], ◌∷◌, Option, some, ok, Memᴰ,
  ◌==◌, string_eq, if◌then◌else◌, eq_refl, ok-injective, Bool-cases, inl, inr,
}
use routr.Sip.{Route}
use routr.Common.Redis.{RedisClient, Json, read_all}
use routr.Location.RedisStore.{pattern_of, redis_key, put, get}

-- What the store relies on of the client and of Redis, in states that satisfy `IsGood`: `value` is
-- what Redis holds under a key, `matches` its matching of patterns. A value with an expiry of at
-- least a second can be set; a scan gives at least the keys that match and have a value.
pub record RedisLaws {C : Type 0} (client : RedisClient C) (value : C → String → Option String)
    (matches : String → String → Bool) (IsGood : C → Type 0) : Type 0 where
  pub get_eq : (k : String) (c : C) → IsGood c → client.get k c ≡ (ok (value c k), c)
  pub scan_eq :
      (p : String) (c : C)
      → IsGood c
      → (ks : List String) × (client.scan p c ≡ (ok ks, c))
        × ((k v : String) → value c k ≡ some v → matches p k ≡ true → Memᴰ k ks)
  pub set_eq :
      (k v : String) (n : ℕ) (c : C)
      → IsGood c
      → (c' : C) × (client.set k v (some (pos (suc n))) c ≡ (ok tt, c'))
        × IsGood c'
        × ((j : String) → value c' j ≡ (if k == j then some v else value c j))

module _ {C : Type 0} {client : RedisClient C} {value : C → String → Option String}
    {matches : String → String → Bool} {IsGood : C → Type 0}
    (laws : RedisLaws client value matches IsGood) (json : Json Route) where
  -- Every value that Redis holds, and that it holds none, is parsed without an exception.
  abbrev pub IsParsed : C → Type 0
  IsParsed c = (k : String) → (x : Option Route) × (json.parse (value c k) ≡ ok x)

  read_all-Mem :
      (c : C) (ks : List String)
      → IsGood c
      → IsParsed c
      → (rs : List (Option Route)) × (read_all client json ks c ≡ (ok rs, c))
        × ((k : String) (x : Option Route) → Memᴰ k ks → json.parse (value c k) ≡ ok x → Memᴰ x rs)
  unfolding read_all
  read_all-Mem c [] good parsed = ([], refl, λ k x m. elim m [ ])
  read_all-Mem c (k ∷ ks) good parsed =
      let (x, e) = parsed k in
      let (rs, read, found) = read_all-Mem c ks good parsed in
      (
        x ∷ rs,
        rw (laws.get_eq k c good, e, read) refl,
        λ j y m p. elim m [
          | Memᴰ.head same ↦
              Memᴰ.head (ok-injective (sym p ∙ ap (λ i. json.parse (value c i)) same ∙ e))
          | Memᴰ.tail m' ↦ Memᴰ.tail (found j y m' p)
        ],
      )

  -- After a route with an expiry of at least a second is put under `key`, a read of any key whose
  -- pattern the route's Redis key matches returns, and the route is among what it gives: if what is
  -- stored was parsed without an exception before, and a route is parsed from its own text.
  pub redis_get-put :
      (key asked : String) (route : Route) (n : ℕ) (c : C)
      → IsGood c
      → IsParsed c
      → json.parse (some (json.stringify route)) ≡ ok (some route)
      → route.expires ≡ some (pos (suc n))
      → matches (pattern_of asked) (redis_key key route) ≡ true
      → (rs : List (Option Route)) × ((get client json asked
            (put client json key (some route) c).1).0
          ≡ ok rs)
        × Memᴰ (some route) rs
  unfolding get put
  redis_get-put key asked route n c good parsed own expires match =
      let k = redis_key key route in
      let (c', done, good', held) = laws.set_eq k (json.stringify route) n c good in
      let stored : put client json key (some route) c ≡ (ok tt, c') =
        ap (λ x. client.set k (json.stringify route) x c) expires ∙ done in
      let still : IsParsed c' = λ j. elim (Bool-cases (k == j)) [
        | inl same ↦ (some route, rw (held j, same) own)
        | inr other ↦ let (x, e) = parsed j in (x, rw (held j, other) e)
      ] in
      let mine : value c' k ≡ some (json.stringify route) = held k ∙ rw (eq_refl k) in
      let (ks, scanned, all) = laws.scan_eq (pattern_of asked) c' good' in
      let (rs, read, found) = read_all-Mem c' ks good' still in
      (
        rs,
        ap (λ p. (get client json asked p.1).0) stored ∙ rw (scanned, read),
        found k (some route) (all k (json.stringify route) mine match) (ap json.parse mine ∙ own),
      )

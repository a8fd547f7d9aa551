-- ===== src/Location/Types.antt =====
-- mods/location/src/types.ts. A store is an interface: `put`, `get` and `delete` as methods on a
-- state of their own, with the clock given.
use routr.Prelude.{ℤ, String, Bool, true, List, ◌∷◌, Option, some, ok, ◌≡◌, ◌≢◌}
use routr.Prelude.Int.{◌≤ℤ◌}
use routr.Prelude.Exec.{Exec}
use routr.Sip.{Route, LoadBalancingAlgorithm, Parameters}

-- `put` can be handed `undefined`: `routes[0]` of no routes.
pub record LocatorStore (S : Type 0) : Type 0 where
  pub put : String → Option Route → Exec S (Unit {0})
  pub get : String → Exec S (List Route)
  pub delete : String → Exec S (Unit {0})

pub record Backend : Type 0 where
  pub ref : Option String
  pub balancing_algorithm : Option LoadBalancingAlgorithm
  pub with_session_affinity : Option Bool

pub record AddRouteRequest : Type 0 where
  pub aor : String
  pub route : Route
  pub max_contacts : Option ℤ

pub record FindRoutesRequest : Type 0 where
  pub aor : String
  pub call_id : String
  pub session_affinity_ref : Option String
  pub backend : Option Backend
  pub labels : Option Parameters

pub record RemoveRoutesRequest : Type 0 where
  pub aor : String

-- What the service relies on at any time: of the states that satisfy `IsGood`, in which a route can
-- be put under a key and is then the first one that is read for it as long as it is alive, while
-- other keys are left as they were, and so are all keys by a read.
pub record StoreLaws {S : Type 0} (store : ℤ → LocatorStore S) (IsGood : S → Type 0)
    (is_alive : ℤ → Route → Bool) : Type 0 where
  pub get_good : (now : ℤ) (k : String) (s : S) → IsGood s → IsGood ((store now).get k s).1
  pub put_good :
      (now : ℤ) (k : String) (r : Route) (s : S)
      → IsGood s
      → IsGood ((store now).put k (some r) s).1
  pub put_done :
      (now : ℤ) (k : String) (r : Route) (s : S)
      → IsGood s
      → ((store now).put k (some r) s).0 ≡ ok tt
  pub get_get :
      (now later : ℤ) (k j : String) (s : S)
      → IsGood s
      → ((store later).get j ((store now).get k s).1).0 ≡ ((store later).get j s).0
  pub get_put :
      (now later : ℤ) (k : String) (r : Route) (s : S)
      → IsGood s
      → is_alive later r ≡ true
      → (rs : List Route) × (((store later).get k ((store now).put k (some r) s).1).0 ≡ ok (r ∷ rs))
  pub get_put_other :
      (now later : ℤ) (k j : String) (r : Route) (s : S)
      → IsGood s
      → k ≢ j
      → ((store later).get j ((store now).put k (some r) s).1).0 ≡ ((store later).get j s).0
  pub get_later :
      (now later : ℤ) (k : String) (r : Route) (rs : List Route) (s : S)
      → IsGood s
      → now ≤ℤ later
      → ((store now).get k s).0 ≡ ok (r ∷ rs)
      → is_alive later r ≡ true
      → (rs' : List Route) × (((store later).get k s).0 ≡ ok (r ∷ rs'))

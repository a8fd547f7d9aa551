-- ===== src/Location/Service.antt =====
-- mods/location/src/location.ts, over any store, and the handlers of mods/location/src/utils.ts.
-- One call runs to its end before the next: the store is in memory. Its `put` is not async, so what
-- it throws reaches the caller, awaited or not.
pub mod RoundRobin
pub mod Calls
pub mod Sticky
pub mod Registered
pub mod Limits
pub mod LeastSessions
use routr.Prelude.{
  ℕ, ◌+◌, ℤ, negsuc, pos, String, Bool, true, false, not, ◌&&◌, ◌||◌, List, [], ◌∷◌, Option, none,
  some, ok, status, invalid_argument, not_found, ◌==◌, string_eq, int_eq, option_eq, any, filter,
  head?, get_elem?, get_or, leb, length, or_else, truthy, template, if◌then◌else◌,
}
use routr.Prelude.Int.{ltb_ℤ}
use routr.Prelude.Exec.{Exec, pure, throw, ◌>>=◌, ◌>>◌}
use routr.Prelude.Maps.{Map, lookup, insert}
use routr.Sip.{Route, LoadBalancingAlgorithm, least_sessions, Parameters}
use routr.Location.Types.{
  LocatorStore, Backend, AddRouteRequest, FindRoutesRequest, RemoveRoutesRequest,
}
use routr.Location.Utils.{filter_only_matching_labels, same_contact}
use text.Mathlib.Text.{starts_with}

pub record Location (S : Type 0) : Type 0 where
  pub store : S
  pub rr_count : Map ℕ

-- The text of UnsupportedSchema. The maximum is left out of the text of BadRequestError.
abbrev unsupported_schema : String → String
unsupported_schema aor =
    template
      ("aor " ∷ aor ∷ " has an invalid schema, only \"sip:\" or \"backend:\" are allowed" ∷ [])

abbrev pub scheme_allowed : String → Bool
scheme_allowed aor = starts_with aor "sip:" || starts_with aor "backend:"

-- `maxContacts !== -1 && existingRoutes.length >= maxContacts`; false for `undefined`.
abbrev pub is_full : Option ℤ → ℕ → Bool
is_full none n = false
is_full (some m) n = not (m == negsuc 0) && not (ltb_ℤ (pos n) m)

abbrev pub already_exists : Route → Route → Bool
already_exists added route = route.user == added.user && same_contact route added

-- routes.sort((r1, r2) => r1.sessionCount - r2.sessionCount), a stable sort. A missing count
-- compares as NaN, which is no order.
abbrev pub fewer : Option ℤ → Option ℤ → Bool
fewer (some a) (some b) = ltb_ℤ a b
fewer _ _ = false

unfoldable pub insert_sorted : Route → List Route → List Route
insert_sorted r [] = r ∷ []
insert_sorted r (x ∷ xs) =
    if fewer x.session_count r.session_count then x ∷ insert_sorted r xs else r ∷ x ∷ xs

unfoldable pub sort_by_sessions : List Route → List Route
unfolding insert_sorted
sort_by_sessions [] = []
sort_by_sessions (r ∷ rs) = insert_sorted r (sort_by_sessions rs)

abbrev pub is_least_sessions : Option LoadBalancingAlgorithm → Bool
is_least_sessions (some least_sessions) = true
is_least_sessions _ = false

abbrev pub has_any : List Route → Bool
has_any [] = false
has_any (_ ∷ _) = true

-- Array.from(labels).sort(...).map(...).join(";"); the order of `localeCompare` is a parameter.
module _ (locale_before : String → String → Bool) where
  unfoldable pub insert_label : String × String → Parameters → Parameters
  insert_label l [] = l ∷ []
  insert_label l (x ∷ xs) = if locale_before x.0 l.0 then x ∷ insert_label l xs else l ∷ x ∷ xs

  unfoldable pub sort_labels : Parameters → Parameters
  unfolding insert_label
  sort_labels [] = []
  sort_labels (l ∷ ls) = insert_label l (sort_labels ls)

  unfoldable pub join_labels : Parameters → String
  join_labels [] = ""
  join_labels ((k, v) ∷ []) = template (k ∷ "=" ∷ v ∷ [])
  join_labels ((k, v) ∷ l ∷ ls) = template (k ∷ "=" ∷ v ∷ ";" ∷ join_labels (l ∷ ls) ∷ [])

  -- `labelString`: "" for no labels, and for an empty map of them.
  unfoldable pub label_string : Option Parameters → String
  unfolding sort_labels join_labels
  label_string none = ""
  label_string (some labels) = join_labels (sort_labels labels)

abbrev pub call_key : String → String → String
call_key aor call_id = template (aor ∷ ":" ∷ call_id ∷ [])

abbrev pub labelled_key : String → String → String → String
labelled_key aor call_id labels =
    if labels == ""
    then call_key aor call_id
    else template (aor ∷ ":" ∷ call_id ∷ ":" ∷ labels ∷ [])

-- The round-robin position that follows, out of `n` routes.
abbrev pub next_position : ℕ → ℕ → ℕ
next_position position n = if leb n (position + 1) then 0 else position + 1

abbrev pub position_of : {S : Type 0} → String → Location S → ℕ
position_of ref l = get_or (lookup ref l.rr_count) 0

unfoldable pub round_robin : {S : Type 0} → String → List Route → Exec (Location S) (Option Route)
unfolding lookup insert
round_robin ref routes l = (
  ok (get_elem? routes (position_of ref l)),
  record l { rr_count = insert ref (next_position (position_of ref l) (length routes)) l.rr_count },
)

module _ {S : Type 0} (store : LocatorStore S) where
  -- A method of the store, on the service that holds it.
  abbrev pub on_store : {A : Type 0} → Exec S A → Exec (Location S) A
  on_store m l = ((m l.store).0, record l { store = (m l.store).1 })

  unfoldable pub add_route : AddRouteRequest → Exec (Location S) (Unit {0})
  add_route request =
      if not (scheme_allowed request.aor)
      then throw (status invalid_argument (unsupported_schema request.aor))
      else on_store (store.get request.aor) >>= λ existing.
          if not (any (already_exists request.route) existing)
            && is_full request.max_contacts (length existing)
          then throw (status invalid_argument "exceeds maximum of allowed contacts")
          else on_store (store.put request.aor (some request.route))

  unfoldable pub next : List Route → Backend → String → Exec (Location S) (Option Route)
  unfolding round_robin sort_by_sessions
  next routes backend aor =
      if is_least_sessions backend.balancing_algorithm
      then pure (head? (sort_by_sessions routes))
      else round_robin (or_else backend.ref aor) routes

  -- With what is stored for the session.
  abbrev pub settle : List Route → String → List Route → Exec (Location S) (Option Route)
  settle routes session_affinity_ref (r ∷ _) = pure (some r)
  settle routes session_affinity_ref [] =
      on_store (store.put session_affinity_ref (head? (sort_by_sessions routes)))
      >> pure (head? (sort_by_sessions routes))

  unfoldable pub next_with_affinity : List Route → String → Exec (Location S) (Option Route)
  unfolding sort_by_sessions
  next_with_affinity routes session_affinity_ref =
      on_store (store.get session_affinity_ref) >>= settle routes session_affinity_ref

  -- `[x]` if it is a route, which is then stored for the call; else no routes.
  abbrev pub remember : String → Option Route → Exec (Location S) (List Route)
  remember key none = pure []
  remember key (some r) = on_store (store.put key (some r)) >> pure (r ∷ [])

  abbrev pub has_affinity : Backend → Option String → Bool
  has_affinity backend ref = get_or backend.with_session_affinity false && truthy ref

  unfoldable pub choose : FindRoutesRequest → String → List Route → Exec (Location S) (List Route)
  unfolding next next_with_affinity
  choose request key routes = elim request.backend [
    | none ↦
        on_store (store.put (call_key request.aor request.call_id) (head? routes)) >> pure routes
    | some backend ↦
        (if has_affinity backend request.session_affinity_ref
          then next_with_affinity routes (get_or request.session_affinity_ref "")
          else next routes backend request.aor)
        >>= remember key
  ]

  module _ (locale_before : String → String → Bool) where
    abbrev pub store_key : FindRoutesRequest → String
    store_key request =
        labelled_key request.aor request.call_id (label_string locale_before request.labels)

    -- The routes of the address of record, those of a call with labels only if the labels match.
    unfoldable pub candidates : FindRoutesRequest → Exec (Location S) (List Route)
    unfolding filter_only_matching_labels label_string
    candidates request =
        if label_string locale_before request.labels == ""
        then on_store (store.get request.aor)
        else on_store (store.get (store_key request)) >>= λ routes.
            if has_any routes
            then pure routes
            else on_store (store.get request.aor) >>= λ all_routes.
                pure (filter (filter_only_matching_labels (get_or request.labels [])) all_routes)

    unfoldable pub find_routes : FindRoutesRequest → Exec (Location S) (List Route)
    unfolding candidates choose label_string
    find_routes request = on_store (store.get (store_key request)) >>= λ routes.
        if has_any routes
        then pure routes
        else candidates request >>= choose request (store_key request)

    unfoldable pub remove_routes : RemoveRoutesRequest → Exec (Location S) (Unit {0})
    remove_routes request = on_store (store.delete request.aor)

    -- The gRPC handlers. What is handed to the callback is the result.
    unfoldable pub handle_find_routes : FindRoutesRequest → Exec (Location S) (List Route)
    unfolding find_routes
    handle_find_routes request = find_routes request >>= λ routes.
        if has_any routes
        then pure routes
        else throw (status not_found (template ("no routes found for aor: " ∷ request.aor ∷ [])))

    -- The handler `removeRoutes` calls `findRoutes`, on a request that names only the address.
    unfoldable pub handle_remove_routes : RemoveRoutesRequest → Exec (Location S) (List Route)
    unfolding find_routes
    handle_remove_routes request = find_routes (record {
      aor = request.aor;
      call_id = "undefined";
      session_affinity_ref = none;
      backend = none;
      labels = none;
    })

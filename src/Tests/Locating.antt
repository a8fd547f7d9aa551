-- ===== src/Tests/Locating.antt =====
-- The location service and its store.
use routr.Prelude.{
  ◌≤◌, ℤ, pos, String, ◌≡◌, refl, List, [], ◌∷◌, map, none, some, ok, Memᴰ, arith, length, filter,
  if◌then◌else◌, ◌==◌, string_eq,
}
use routr.Location.Types.{AddRouteRequest}
use routr.Location.Utils.{expired_filter}
use routr.Location.MemoryStore.{MemoryStore, create, memory_store, put, get}
use routr.Location.MemoryStore.Contacts.{
  IsSound, Stored, added, create-IsSound, put-IsSound, get-put,
}
use routr.Location.MemoryStore.Runs.{
  Call, puts, gets, deletes, run, run-IsLawful, IsLawful, get-run-create,
}
use routr.Location.Service.{
  Location, add_route, find_routes, round_robin, position_of, sort_by_sessions,
}
use routr.Location.Service.Limits.{add_route-length-le}
use routr.Location.Service.RoundRobin.{turns, turns_lem}
use routr.Location.Service.LeastSessions.{IsLeast, sort_by_sessions-IsLeast}
use routr.Tests.Data.{near, far, now}

locating : Unit {0}
unfolding put get add_route find_routes round_robin sort_by_sessions run
locating = tt

abbrev aor : String
aor = "sip:1002@sip.local"

-- One contact is registered.
abbrev registered : MemoryStore
registered = (put now aor (some far) (create 10)).1

registered-IsSound : IsSound registered
registered-IsSound = put-IsSound now aor far (create 10) (create-IsSound 10)

registered-Stored : Stored registered aor (far ∷ [])
unfolding locating
registered-Stored = refl

get-put_example : (get now aor (put now aor (some near) registered).1).0 ≡ (
    if aor == aor
    then ok (filter (expired_filter now) (added now near (far ∷ [])))
    else (get now aor registered).0)
get-put_example =
    get-put now now aor aor near (far ∷ []) registered registered-IsSound registered-Stored

get-put_test : (get now aor (put now aor (some near) registered).1).0 ≡ ok (near ∷ far ∷ [])
unfolding locating
get-put_test = refl

abbrev calls : List Call
calls =
    puts now aor (some near)
    ∷ puts now "sip:1003@sip.local" none
    ∷ puts now aor (some far)
    ∷ gets now aor
    ∷ deletes "sip:1001@sip.local"
    ∷ []

run-IsLawful_example : IsLawful (run calls (create 1))
run-IsLawful_example = run-IsLawful 1 calls

get-run-create_example : (get now aor (run calls (create 1))).1 ≡ run calls (create 1)
get-run-create_example = get-run-create 1 calls now aor

abbrev service : Location MemoryStore
service = record { store = registered; rr_count = [] }

abbrev registration : AddRouteRequest
registration = record { aor = aor; route = near; max_contacts = some (pos 2) }

abbrev grown : Location MemoryStore
grown = (add_route (memory_store now) registration service).1

add_route-length-le_example : length (near ∷ far ∷ []) ≤ 2
unfolding locating
add_route-length-le_example =
    add_route-length-le now registration service grown (far ∷ []) now 2 (near ∷ far ∷ [])
      registered-IsSound registered-Stored refl (omega arith) refl refl

turns_lem_example :
    ((turns 2 "backend:voice" (near ∷ far ∷ []) service).0
      ≡ map (λ x. ok (some x)) (near ∷ far ∷ []))
    × (position_of "backend:voice" (turns 2 "backend:voice" (near ∷ far ∷ []) service).1 ≡ 0)
unfolding locating
turns_lem_example = turns_lem "backend:voice" near (far ∷ []) service refl

sort_by_sessions-IsLeast_example : Memᴰ far (near ∷ far ∷ []) × IsLeast far (near ∷ far ∷ [])
unfolding locating
sort_by_sessions-IsLeast_example =
    sort_by_sessions-IsLeast (near ∷ far ∷ []) far ((pos 4, refl), ((pos 2, refl), tt)) refl

abbrev later : ℤ
later = pos 900000

-- ===== src/Location/MemoryStore/Runs.antt =====
-- What holds of the in-memory store after any calls, those that put `undefined` included.
use routr.Prelude.{
  ℕ, ℤ, String, ◌≡◌, refl, ap, ◌⊎◌, inl, inr, Option, none, some, List, [], ◌∷◌, map, filter,
  Bool-cases, ◌==◌, string_eq,
}
use routr.Prelude.Maps.{insert}
use routr.Sip.{Route}
use routr.Location.Utils.{expired_filter}
use routr.Location.MemoryStore.{MemoryStore, create, routes_at, put, get, delete}
use routr.Location.MemoryStore.Contacts.{
  IsDistinct, create-IsSound, live-map, added, added-IsDistinct, put-eq, get-eq, routes_at-insert,
  routes_at-erase,
}

-- A call of the store. The location service puts `undefined` too, where it has no route to put.
pub data Call : Type 0 where
  puts : (now : ℤ) (key : String) (route : Option Route) → Call
  gets : (now : ℤ) (key : String) → Call
  deletes : (key : String) → Call

pub call : Call → MemoryStore → MemoryStore
call (puts now k r) s = (put now k r s).1
call (gets now k) s = (get now k s).1
call (deletes k) s = (delete k s).1

unfoldable pub run : List Call → MemoryStore → MemoryStore
unfolding call
run [] s = s
run (c ∷ cs) s = run cs (call c s)

-- A list with one route for each contact, or `undefined` alone.
abbrev pub IsKept : List (Option Route) → Type 0
IsKept stored = ((rs : List Route) × (stored ≡ map some rs) × IsDistinct rs) ⊎ (stored ≡ none ∷ [])

pub record IsLawful (s : MemoryStore) : Type 0 where
  pub uncounted : s.cleanup_count ≡ none
  pub at_key : (k : String) → IsKept (routes_at k s)

create-IsLawful : (n : ℕ) → IsLawful (create n)
create-IsLawful n = record { uncounted = refl; at_key = λ k. inl ((create-IsSound n).at_key k) }

-- A `put` throws and changes nothing, or leaves a list of one of the two forms under its key.
abbrev IsOutcome : ℤ → String → Option Route → MemoryStore → Type 0
IsOutcome now k route s =
    ((put now k route s).1 ≡ s)
    ⊎ ((v : List (Option Route)) × IsKept v
        × ((put now k route s).1 ≡ record s { collections = insert k v s.collections }))

defined_put-IsOutcome :
    (now : ℤ) (k : String) (r : Route) (s : MemoryStore) (rs : List Route)
    → routes_at k s ≡ map some rs
    → IsDistinct rs
    → IsOutcome now k (some r) s
defined_put-IsOutcome now k r s rs e d = inr (
  map some (added now r rs),
  inl (added now r rs, refl, added-IsDistinct now r rs d),
  ap (λ p. p.1) (put-eq now k r rs s e),
)

nothing_put-IsOutcome :
    (now : ℤ) (k : String) (s : MemoryStore) (rs alive : List Route)
    → routes_at k s ≡ map some rs
    → filter (expired_filter now) rs ≡ alive
    → IsOutcome now k none s
unfolding put
nothing_put-IsOutcome now k s rs [] e h = inr (none ∷ [], inr refl, rw (e, live-map now rs, h) refl)
nothing_put-IsOutcome now k s rs (x ∷ xs) e h = inl (rw (e, live-map now rs, h) refl)

put_over-IsOutcome :
    (now : ℤ) (k : String) (route : Option Route) (s : MemoryStore)
    → routes_at k s ≡ none ∷ []
    → IsOutcome now k route s
unfolding put
put_over-IsOutcome now k route s e = inl (rw e refl)

put-IsOutcome :
    (now : ℤ) (k : String) (route : Option Route) (s : MemoryStore)
    → IsKept (routes_at k s)
    → IsOutcome now k route s
put-IsOutcome now k route s (inr e) = put_over-IsOutcome now k route s e
put-IsOutcome now k none s (inl (rs, e, d)) = nothing_put-IsOutcome now k s rs _ e refl
put-IsOutcome now k (some r) s (inl (rs, e, d)) = defined_put-IsOutcome now k r s rs e d

put-IsLawful :
    (now : ℤ) (k : String) (route : Option Route) (s : MemoryStore)
    → IsLawful s
    → IsLawful (put now k route s).1
put-IsLawful now k route s v = elim (put-IsOutcome now k route s (v.at_key k)) [
  | inl same ↦ rw same v
  | inr (stored, kept, e) ↦ rw e (record {
    uncounted = v.uncounted;
    at_key = λ j. elim (Bool-cases (k == j)) [
      | inl same ↦ rw (routes_at-insert k j stored s, same) kept
      | inr other ↦ rw (routes_at-insert k j stored s, other) (v.at_key j)
    ];
  })
]

delete-IsLawful : (k : String) (s : MemoryStore) → IsLawful s → IsLawful (delete k s).1
unfolding delete
delete-IsLawful k s v = record {
  uncounted = v.uncounted;
  at_key = λ j. elim (Bool-cases (k == j)) [
    | inl same ↦ inl ([], rw (routes_at-erase k j s, same), tt)
    | inr other ↦ rw (routes_at-erase k j s, other) (v.at_key j)
  ];
}

get-IsLawful : (now : ℤ) (k : String) (s : MemoryStore) → IsLawful s → IsLawful (get now k s).1
get-IsLawful now k s v = rw (get-eq now k s v.uncounted) v

call-IsLawful : (c : Call) (s : MemoryStore) → IsLawful s → IsLawful (call c s)
unfolding call
call-IsLawful (puts now k r) s v = put-IsLawful now k r s v
call-IsLawful (gets now k) s v = get-IsLawful now k s v
call-IsLawful (deletes k) s v = delete-IsLawful k s v

run_from : (cs : List Call) (s : MemoryStore) → IsLawful s → IsLawful (run cs s)
unfolding run
run_from [] s v = v
run_from (c ∷ cs) s v = run_from cs (call c s) (call-IsLawful c s v)

-- After any sequence of puts, gets and deletes on a new store, whatever is put, `undefined` too, and
-- whatever was thrown on the way, each list of the store has no two routes with the same host, port
-- and transport, and none is `undefined`, or it is `undefined` alone.
pub run-IsLawful : (n : ℕ) (cs : List Call) → IsLawful (run cs (create n))
run-IsLawful n cs = run_from cs (create n) (create-IsLawful n)

-- After any calls on a new store, whatever its number of cycles, a `get` of any key at any time
-- changes nothing in the store: the cleanup that drops expired routes never runs.
pub get-run-create :
    (n : ℕ) (cs : List Call) (now : ℤ) (k : String)
    → (get now k (run cs (create n))).1 ≡ run cs (create n)
get-run-create n cs now k =
    ap (λ p. p.1) (get-eq now k (run cs (create n)) (run-IsLawful n cs).uncounted)

-- ===== src/Location/MemoryStore.antt =====
-- mods/location/src/memory_store.ts
pub mod Contacts
pub mod Runs
use routr.Prelude.{
  ℕ, ◌+◌, ℤ, String, Bool, true, false, List, [], ◌∷◌, map, Option, none, some, Result, ok, err,
  type_error, ◌>>=◌, leb, filter, get_or, length, if◌then◌else◌,
}
use routr.Prelude.Exec.{Exec}
use routr.Prelude.Maps.{Map, lookup, insert, erase}
use routr.Sip.{Route}
use routr.Location.Types.{LocatorStore}
use routr.Location.Utils.{expired_filter, duplicate_filter}

-- A stored element is `none` where `undefined` was put. `cleanup_count` is `none` for `undefined`
-- and for NaN: the field is declared and never set, and incrementing gives NaN.
pub record MemoryStore : Type 0 where
  pub collections : Map (List (Option Route))
  pub cleanup_count : Option ℕ
  pub max_cycles_before_cleanup : ℕ

abbrev pub max_cycles : ℕ
max_cycles = 10000

-- new MemoryStore(maxCyclesBeforeCleanup)
abbrev pub create : ℕ → MemoryStore
create n = record { collections = []; cleanup_count = none; max_cycles_before_cleanup = n }

-- .filter((r) => duplicateFilter(r, route))
unfoldable pub without_duplicates : List Route → Option Route → Result (List Route)
unfolding duplicate_filter
without_duplicates [] route = ok []
without_duplicates (r ∷ rs) none = err type_error
without_duplicates (r ∷ rs) (some route) = ok (filter (λ r'. duplicate_filter r' route) (r ∷ rs))

abbrev pub routes_at : String → MemoryStore → List (Option Route)
routes_at key s = get_or (lookup key s.collections) []

abbrev pub stored : Result (List Route) → String → Option Route → Exec MemoryStore (Unit {0})
stored (err e) key route s = (err e, s)
stored (ok filtered) key route s =
    (ok tt, record s { collections = insert key (route ∷ map some filtered) s.collections })

-- cleanupCount++
abbrev pub counted : Option ℕ → Option ℕ
counted none = none
counted (some n) = some (n + 1)

abbrev pub is_due : Option ℕ → ℕ → Bool
is_due none n = false
is_due (some c) n = leb n c

abbrev count_get : MemoryStore → MemoryStore
count_get s = record s { cleanup_count = counted s.cleanup_count }

unfoldable pub delete : String → Exec MemoryStore (Unit {0})
unfolding erase
delete key s = (ok tt, record s { collections = erase key s.collections })

module _ (now : ℤ) where
  -- routes.filter(expiredFilter), which reads a property of each element.
  unfoldable pub live : List (Option Route) → Result (List Route)
  unfolding expired_filter
  live [] = ok []
  live (none ∷ rs) = err type_error
  live (some r ∷ rs) = do rest ← live rs; if expired_filter now r then ok (r ∷ rest) else ok rest

  unfoldable pub put : String → Option Route → Exec MemoryStore (Unit {0})
  unfolding live without_duplicates insert lookup
  put key route s =
      stored (do kept ← live (routes_at key s); without_duplicates kept route) key route s

  -- What the loop leaves, and whether it threw: an entry that throws ends the loop.
  unfoldable pub cleanup_entries :
      Map (List (Option Route)) → Result (Unit {0}) × Map (List (Option Route))
  unfolding live
  cleanup_entries [] = (ok tt, [])
  cleanup_entries ((k, rs) ∷ m) =
      let (r, rest) = cleanup_entries m in
      elim (live rs) [
        | err e ↦ (err e, (k, rs) ∷ m)
        | ok kept ↦ elim kept [ [] ↦ (r, rest) | x ∷ xs ↦ (r, (k, map some (x ∷ xs)) ∷ rest) ]
      ]

  unfoldable pub cleanup : Exec MemoryStore (Unit {0})
  unfolding cleanup_entries
  cleanup s = let (r, m) = cleanup_entries s.collections in (r, record s { collections = m })

  unfoldable pub collect : Exec MemoryStore (Unit {0})
  unfolding cleanup
  collect s =
      let s' = count_get s in
      if is_due s'.cleanup_count s'.max_cycles_before_cleanup
      then cleanup (record s' { cleanup_count = some 0 })
      else (ok tt, s')

  abbrev read_at : Result (Unit {0}) → String → Exec MemoryStore (List Route)
  read_at (err e) key s = (err e, s)
  read_at (ok _) key s = (live (routes_at key s), s)

  unfoldable pub get : String → Exec MemoryStore (List Route)
  unfolding collect live lookup
  get key s = let (r, s') = collect s in read_at r key s'

abbrev pub size : MemoryStore → ℕ
size s = length s.collections

abbrev pub memory_store : ℤ → LocatorStore MemoryStore
memory_store now = record { put = put now; get = get now; delete = delete }

-- ===== src/Registry/Store.antt =====
-- mods/registry/src/memory_store.ts, with the clock as an argument.
pub mod Held
use routr.Prelude.{
  ℕ, ◌+◌, ℤ, String, Bool, false, not, List, [], ◌∷◌, map, Option, none, some, leb, filter,
  if◌then◌else◌,
}
use routr.Prelude.Int.{ltb_ℤ, scale, ◌-ℤ◌}
use routr.Prelude.Maps.{Map, lookup, insert, erase}
use routr.Registry.Types.{RegistrationEntry}

-- timeElapsed <= entry.retentionTimeInSeconds, in milliseconds
unfoldable pub not_expired : ℤ → RegistrationEntry → Bool
unfolding ◌-ℤ◌
not_expired now entry =
    not (ltb_ℤ (scale 1000 entry.retention_time_in_seconds) (now -ℤ entry.time_of_entry))

-- `none` is a count that is `undefined` or NaN: the field is declared and never set.
pub record MemoryStore : Type 0 where
  pub entries : Map RegistrationEntry
  pub cleanup_count : Option ℕ
  pub max_cycles_before_cleanup : ℕ

abbrev pub create : ℕ → MemoryStore
create n = record { entries = []; cleanup_count = none; max_cycles_before_cleanup = n }

abbrev pub counted : Option ℕ → Option ℕ
counted none = none
counted (some n) = some (n + 1)

abbrev is_due : Option ℕ → ℕ → Bool
is_due none n = false
is_due (some c) n = leb n c

-- Deleting a key while `forEach` runs leaves the visits of the other keys as they are.
unfoldable pub cleanup : ℤ → MemoryStore → MemoryStore
unfolding not_expired
cleanup now s = record s { entries = filter (λ e. not_expired now e.1) s.entries }

abbrev pub after_count : ℤ → MemoryStore → MemoryStore
after_count now s =
    if is_due s.cleanup_count s.max_cycles_before_cleanup
    then cleanup now (record s { cleanup_count = some 0 })
    else s

unfoldable pub put : ℤ → String → RegistrationEntry → MemoryStore → MemoryStore
unfolding cleanup insert
put now key entry s =
    after_count now
      (record s { entries = insert key entry s.entries; cleanup_count = counted s.cleanup_count })

unfoldable pub list : ℤ → MemoryStore → List RegistrationEntry
unfolding not_expired
list now s = filter (not_expired now) (map (λ e. e.1) s.entries)

unfoldable pub get : ℤ → String → MemoryStore → Option RegistrationEntry
unfolding not_expired lookup
get now key s = elim (lookup key s.entries) [
  | none ↦ none
  | some entry ↦ if not_expired now entry then some entry else none
]

unfoldable pub delete : String → MemoryStore → MemoryStore
unfolding erase
delete key s = record s { entries = erase key s.entries }

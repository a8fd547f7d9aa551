-- ===== src/Location/Utils.antt =====
-- The filters of mods/location/src/utils.ts. `Date.now()` is an argument.
use routr.Prelude.{
  ℤ, String, Bool, false, not, ◌&&◌, List, [], ◌∷◌, map, Option, none, some, ◌==◌, string_eq,
  int_eq, nat_eq, option_eq, any, all, length, template,
}
use routr.Prelude.Int.{ltb_ℤ, scale, ◌-ℤ◌}
use routr.Sip.{Route, Parameters}

-- `expires - (now - registeredOn) / 1000 > 0`, in milliseconds; false where a number is missing.
unfoldable pub unexpired : ℤ → Option ℤ → Option ℤ → Bool
unfolding ◌-ℤ◌
unexpired now (some expires) (some registered_on) =
    ltb_ℤ (now -ℤ registered_on) (scale 1000 expires)
unexpired now _ _ = false

unfoldable pub expired_filter : ℤ → Route → Bool
unfolding unexpired
expired_filter now r = unexpired now r.expires r.registered_on

abbrev pub same_contact : Route → Route → Bool
same_contact r1 r2 = r1.host == r2.host && r1.port == r2.port && r1.transport == r2.transport

unfoldable pub duplicate_filter : Route → Route → Bool
duplicate_filter r1 r2 = not (same_contact r1 r2)

unfoldable pub merge_key_value : Parameters → List String
merge_key_value labels = map (λ l. template (l.0 ∷ l.1 ∷ [])) labels

unfoldable pub compare_arrays : List String → List String → Bool
compare_arrays arr target = all (λ v. any (λ a. a == v) arr) target && length arr == length target

unfoldable pub filter_only_matching_labels : Parameters → Route → Bool
unfolding compare_arrays merge_key_value
filter_only_matching_labels request_labels route = elim route.labels [
  | none ↦ false
  | some labels ↦ compare_arrays (merge_key_value request_labels) (merge_key_value labels)
]

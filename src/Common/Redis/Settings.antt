-- ===== src/Common/Redis/Settings.antt =====
-- The parameters of a cache, written and read again.
use routr.Prelude.{
  String, ◌≡◌, ◌≢◌, refl, sym, ap, ◌∙◌, true, false, List, [], ◌∷◌, map, some, ok, arith, any, All,
  ◌==◌, string_eq, split, eq_iff, eq_refl, Bool-cases, inl, inr,
}
use text.Mathlib.TextLemmas.{cons≢nil, append-eq-nil_iff}
use Prim.Native.String.{◌++◌}
use routr.Prelude.Splits.{lacks, comma, equals, join, split-lacks, split-append, split-join}
use routr.Prelude.Maps.{Map, lookup, insert, lookup-insert}
use routr.Common.Redis.{Setting, setting, add_parameters, config_from_string}

-- "key=value", the form of one parameter.
abbrev pub written_parameter : String × String → String
written_parameter (key, value) = key ++ String.◌∷◌ equals value

-- host=localhost,port=6379
abbrev pub written_parameters : List (String × String) → String
written_parameters entries = join comma (map written_parameter entries)

-- The key is allowed, and neither it nor the value has a separator.
pub record IsWritable (allowed : List String) (entry : String × String) : Type 0 where
  pub is_allowed : any (λ k. k == entry.0) allowed ≡ true
  pub key_plain : lacks b'=' entry.0 ≡ true
  pub value_plain : lacks b'=' entry.1 ≡ true
  pub no_comma : lacks b',' (written_parameter entry) ≡ true

-- The parameters that are set one after the other.
unfoldable pub set_all : List (String × String) → Map Setting → Map Setting
set_all [] m = m
set_all ((key, value) ∷ rest) m = set_all rest (insert key (setting (some value)) m)

add_parameters-written :
    (params : String) (allowed : List String) (entries : List (String × String)) (m : Map Setting)
    → All (IsWritable allowed) entries
    → add_parameters params allowed (map written_parameter entries) m ≡ ok (set_all entries m)
unfolding add_parameters set_all
add_parameters-written params allowed [] m h = refl
add_parameters-written params allowed ((key, value) ∷ rest) m h =
    let parts : split b'=' (written_parameter (key, value)) ≡ key ∷ value ∷ [] =
      split-append equals key value h.0.key_plain
      ∙ ap (λ x. key ∷ x) (split-lacks b'=' value h.0.value_plain) in
    rw (parts, h.0.is_allowed) (add_parameters-written params allowed rest _ h.1)

-- No key is written twice.
abbrev pub IsDistinct : List (String × String) → Type 0
IsDistinct [] = Unit
IsDistinct (entry ∷ rest) = All (λ other. other.0 ≢ entry.0) rest × IsDistinct rest

lookup-set_all :
    (entries : List (String × String)) (key : String) (m : Map Setting)
    → All (λ other. other.0 ≢ key) entries
    → lookup key (set_all entries m) ≡ lookup key m
unfolding set_all
lookup-set_all [] key m h = refl
lookup-set_all ((other, value) ∷ rest) key m h =
    lookup-set_all rest key (insert other (setting (some value)) m) h.1
    ∙ lookup-insert other key (setting (some value)) m
    ∙ ground (arith, h.0, eq_iff other key)

lookup-set_all_each :
    (entries : List (String × String)) (m : Map Setting)
    → IsDistinct entries
    → All (λ entry. lookup entry.0 (set_all entries m) ≡ some (setting (some entry.1))) entries
unfolding set_all
lookup-set_all_each [] m h = tt
lookup-set_all_each ((key, value) ∷ rest) m h = (
  lookup-set_all rest key (insert key (setting (some value)) m) h.0
      ∙ lookup-insert key key (setting (some value)) m
      ∙ rw (eq_refl key),
  lookup-set_all_each rest (insert key (setting (some value)) m) h.1,
)

written-ne-empty :
    (entry : String × String) (rest : List (String × String))
    → All (λ x. lacks b',' x ≡ true) (map written_parameter (entry ∷ rest))
    → (written_parameters (entry ∷ rest) == "") ≡ false
unfolding split
written-ne-empty entry rest h = elim (Bool-cases (written_parameters (entry ∷ rest) == "")) [
  | inr e ↦ e
  | inl e ↦
      let empty : written_parameters (entry ∷ rest) ≡ "" =
        ground (arith, e, eq_iff (written_parameters (entry ∷ rest)) "") in
      let parts = split-join comma (written_parameter entry) (map written_parameter rest) h in
      let same : written_parameter entry ∷ map written_parameter rest ≡ "" ∷ [] =
        sym parts ∙ ap (split b',') empty in
      let first : written_parameter entry ≡ "" = cc in
      absurd (cons≢nil (append-eq-nil_iff.0 first).1)
]

no_commas :
    (allowed : List String) (entries : List (String × String))
    → All (IsWritable allowed) entries
    → All (λ x. lacks b',' x ≡ true) (map written_parameter entries)
no_commas allowed [] h = tt
no_commas allowed (entry ∷ rest) h = (h.0.no_comma, no_commas allowed rest h.1)

-- Parameters that are written as key=value and joined by commas are read back: each key that is
-- allowed has its value, a value "true" as the setting `true`, if no key is written twice and no key
-- or value has a comma or an equals sign.
pub config_from_string-written :
    (allowed : List String) (entry : String × String) (rest : List (String × String))
    → All (IsWritable allowed) (entry ∷ rest)
    → IsDistinct (entry ∷ rest)
    → (m : Map Setting) × (config_from_string (written_parameters (entry ∷ rest)) allowed ≡ ok m)
      × All (λ e. lookup e.0 m ≡ some (setting (some e.1))) (entry ∷ rest)
unfolding config_from_string
config_from_string-written allowed entry rest h distinct =
    let entries = entry ∷ rest in
    let plain = no_commas allowed entries h in
    let parts = split-join comma (written_parameter entry) (map written_parameter rest) plain in
    (
      set_all entries [],
      rw (written-ne-empty entry rest plain, parts)
          (add_parameters-written (written_parameters entries) allowed entries [] h),
      lookup-set_all_each entries [] distinct,
    )

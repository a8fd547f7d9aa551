-- ===== src/Prelude/Maps.antt =====
-- JavaScript's `Map` with string keys: entries in the order in which their keys were first set.
use Prim.Native.String.{String}
use mathlib.Core.Path.{◌≡◌, refl}
use mathlib.Core.Option.{Option, none, some}
use mathlib.Core.List.{List, [], ◌∷◌}
use native.Mathlib.Omega.{arith}
use text.Mathlib.TextEquality.{eq_iff}
use routr.Prelude.Tests.{◌==◌, string_eq, if◌then◌else◌}

abbrev pub Map {ℓ} : Type ℓ → Type ℓ
Map V = List (String × V)

module _ {ℓ} {V : Type ℓ} where
  -- m.get(k)
  unfoldable pub lookup : String → Map V → Option V
  lookup k [] = none
  lookup k ((j, v) ∷ m) = if j == k then some v else lookup k m

  -- m.set(k, v)
  unfoldable pub insert : String → V → Map V → Map V
  insert key value [] = (key, value) ∷ []
  insert key value ((other, old) ∷ rest) =
      if other == key then (key, value) ∷ rest else (other, old) ∷ insert key value rest

  -- m.delete(k)
  unfoldable pub erase : String → Map V → Map V
  erase k [] = []
  erase k ((j, v) ∷ m) = if j == k then erase k m else (j, v) ∷ erase k m

  pub lookup-insert :
      (key asked : String) (value : V) (m : Map V)
      → lookup asked (insert key value m) ≡ (if key == asked then some value else lookup asked m)
  unfolding lookup insert
  lookup-insert key asked value [] = refl
  lookup-insert key asked value (entry ∷ rest) = ground (
    arith,
    lookup-insert key asked value rest,
    eq_iff entry.0 key,
    eq_iff entry.0 asked,
    eq_iff key asked,
  )

  pub lookup-erase :
      (key asked : String) (m : Map V)
      → lookup asked (erase key m) ≡ (if key == asked then none else lookup asked m)
  unfolding lookup erase
  lookup-erase key asked [] = ground arith
  lookup-erase key asked (entry ∷ rest) = ground (
    arith,
    lookup-erase key asked rest,
    eq_iff entry.0 key,
    eq_iff entry.0 asked,
    eq_iff key asked,
  )

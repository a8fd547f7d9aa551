-- ===== src/Validations/Assertions/Uris.antt =====
-- The outbound URIs of a trunk: mods/common/src/connect/assertions.ts.
use routr.Prelude.{
  parse_int, show_number, ℕ, String, ℤ, ◌≡◌, refl, Bool, true, false, not, ◌&&◌, ◌||◌, List, [],
  ◌∷◌, Option, none, some, arith, All, ◌↔◌, ◌==◌, string_eq,
}
use routr.Validations.{Packages}
use routr.Validations.Rules.{is_in_range}
use routr.Validations.Assertions.{
  passes, TrunkUri, each_uri, is_valid_outbound_uri_or_throw, has_valid_outbound_uris_or_throw,
}

module _ (p : Packages) where
  abbrev is_reachable : Option String → Bool
  is_reachable none = false
  is_reachable (some host) = not (host == "") && (p.is_fqdn host || p.is_ip host)

  abbrev is_number_from : ℕ → Option ℤ → Bool
  is_number_from low n =
      show_number n == ""
      || p.is_int (show_number n) && is_in_range p low (parse_int (show_number n))

  -- A host that is a name or an address, a port, a priority from 0 and a weight from 1 to 65535, as
  -- the packages read the texts of the numbers.
  abbrev pub is_usable : TrunkUri → Bool
  is_usable uri =
      is_reachable uri.host
      && (show_number uri.port == "" || p.is_port (show_number uri.port))
      && is_number_from 0 uri.priority
      && is_number_from 1 uri.weight

  usable_of_passes :
      (uri : TrunkUri) → is_valid_outbound_uri_or_throw p uri ≡ passes → is_usable uri ≡ true
  usable_of_passes uri h = ground arith

  passes_of_usable :
      (uri : TrunkUri) → is_usable uri ≡ true → is_valid_outbound_uri_or_throw p uri ≡ passes
  passes_of_usable uri h = ground arith

  All-of_passes :
      (uris : List TrunkUri) → each_uri p uris ≡ passes → All (λ uri. is_usable uri ≡ true) uris
  All-of_passes [] h = tt
  All-of_passes (uri ∷ uris) h = ground (arith, usable_of_passes uri, All-of_passes uris)

  passes_of_All :
      (uris : List TrunkUri) → All (λ uri. is_usable uri ≡ true) uris → each_uri p uris ≡ passes
  passes_of_All [] h = refl
  passes_of_All (uri ∷ uris) h = ground (arith, passes_of_usable uri h.0, passes_of_All uris h.1)

  -- The URIs of a trunk are accepted exactly when all of them are usable.
  pub uris_accepted :
      (uris : List TrunkUri)
      → (has_valid_outbound_uris_or_throw p (some uris) ≡ passes)
        ↔ All (λ uri. is_usable uri ≡ true) uris
  unfolding has_valid_outbound_uris_or_throw
  uris_accepted uris = (All-of_passes uris, passes_of_All uris)

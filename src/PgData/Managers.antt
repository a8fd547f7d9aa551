-- ===== src/PgData/Managers.antt =====
-- mods/pgdata/src/mappers: `validOrThrowCreate` and `validOrThrowUpdate` of each manager, chosen by
-- the kind as `getManager` does.
pub mod Updates
use text.Mathlib.Text.{starts_with}
use Prim.Native.String
use routr.Prelude.{
  ℕ, zero, suc, String, Bool, true, false, Option, none, some, if◌then◌else◌, type_error,
}
use routr.Validations.{Packages}
use routr.Validations.Checks.{
  has_reference, has_name, is_valid_name, has_username, is_valid_username, has_password,
  is_valid_domain_uri, has_tel_url, is_valid_tel_url, has_aor, is_valid_aor, is_valid_aor_link,
  has_city, has_country, has_country_iso_code, has_valid_headers, is_valid_session_affinity_header,
}
use routr.Validations.Rules.{
  has_acl_rules, has_valid_acl_rules, has_inbound_uri, is_valid_inbound_uri,
  is_valid_contact_address, is_valid_e164,
}
use routr.Validations.Assertions.{
  Assertion, passes, throws, ◌>>◌, or_throw, has_valid_outbound_uris_or_throw,
}
use routr.PgData.Requests.{
  Request, acl, credentials, agent, peer, domain, trunk, number, AccessControlList, Credentials,
  Agent, Peer, Domain, Trunk, INumber,
}

-- ENFORCE_E164 and ENFORCE_E164_WITH_MOBILE_PREFIX
pub record Environment : Type 0 where
  pub enforce_e164 : Bool
  pub with_mobile_prefix : Bool

abbrev pub before_tel : String → String
before_tel String.[] = ""
before_tel (String.◌∷◌ c s) =
    if starts_with (String.◌∷◌ c s) "tel:" then "" else String.◌∷◌ c (before_tel s)

abbrev pub without_first : ℕ → String → String
without_first n String.[] = ""
without_first zero (String.◌∷◌ c s) = String.◌∷◌ c s
without_first (suc n) (String.◌∷◌ c s) = without_first n s

-- telUrl.split("tel:")[1]
abbrev pub after_tel : String → Option String
after_tel String.[] = none
after_tel (String.◌∷◌ c s) =
    if starts_with (String.◌∷◌ c s) "tel:"
    then some (before_tel (without_first 3 s))
    else after_tel s

module _ (p : Packages) (env : Environment) where
  abbrev pub is_valid_e164_number : INumber → Assertion
  is_valid_e164_number n =
      if env.enforce_e164
      then elim n.tel_url [
        | none ↦ throws (some type_error)
        | some tel_url ↦
            or_throw (is_valid_e164 p (after_tel tel_url) n.country_iso_code env.with_mobile_prefix)
      ]
      else passes

  abbrev pub acl_create : AccessControlList → Assertion
  acl_create r = do
    or_throw (has_name r.name)
    or_throw (is_valid_name p r.name)
    or_throw (has_acl_rules r.deny r.allow)
    or_throw (has_valid_acl_rules p r.deny r.allow)

  abbrev pub credentials_create : Credentials → Assertion
  credentials_create r = do
    or_throw (has_name r.name)
    or_throw (is_valid_name p r.name)
    or_throw (has_username r.username)
    or_throw (is_valid_username r.username)
    or_throw (has_password r.password)

  abbrev pub agent_create : Agent → Assertion
  agent_create r = do
    or_throw (has_name r.name)
    or_throw (is_valid_name p r.name)
    or_throw (has_username r.username)
    or_throw (is_valid_username r.username)

  abbrev pub peer_create : Peer → Assertion
  peer_create r = do
    or_throw (has_name r.name)
    or_throw (is_valid_name p r.name)
    or_throw (has_username r.username)
    or_throw (is_valid_username r.username)
    or_throw (has_aor r.aor)
    or_throw (is_valid_aor r.aor)
    or_throw (is_valid_contact_address p r.contact_addr)

  abbrev pub domain_create : Domain → Assertion
  domain_create r = do
    or_throw (has_name r.name)
    or_throw (is_valid_name p r.name)
    or_throw (is_valid_domain_uri p r.domain_uri)

  abbrev pub trunk_create : Trunk → Assertion
  trunk_create r = do
    or_throw (has_name r.name)
    or_throw (is_valid_name p r.name)
    or_throw (has_inbound_uri r.inbound_uri)
    or_throw (is_valid_inbound_uri p r.inbound_uri)
    has_valid_outbound_uris_or_throw p r.uris

  abbrev pub number_create : INumber → Assertion
  number_create r = do
    or_throw (has_tel_url r.tel_url)
    or_throw (is_valid_tel_url r.tel_url)
    is_valid_e164_number r
    or_throw (has_name r.name)
    or_throw (is_valid_name p r.name)
    or_throw (is_valid_aor_link r.aor_link)
    or_throw (has_city r.city)
    or_throw (has_country r.country)
    or_throw (has_country_iso_code r.country_iso_code)
    or_throw (has_valid_headers r.extra_headers)
    or_throw (is_valid_session_affinity_header r.session_affinity_header)

  abbrev pub acl_update : AccessControlList → Assertion
  acl_update r = do
    or_throw (has_reference r.ref)
    or_throw (is_valid_name p r.name)
    or_throw (has_valid_acl_rules p r.deny r.allow)

  abbrev pub credentials_update : Credentials → Assertion
  credentials_update r = do
    or_throw (has_reference r.ref)
    or_throw (is_valid_name p r.name)
    or_throw (is_valid_username r.username)

  abbrev pub agent_update : Agent → Assertion
  agent_update r = do or_throw (has_reference r.ref); or_throw (is_valid_name p r.name)

  abbrev pub peer_update : Peer → Assertion
  peer_update r = do
    or_throw (has_reference r.ref)
    or_throw (is_valid_name p r.name)
    or_throw (is_valid_username r.username)
    or_throw (is_valid_aor r.aor)
    or_throw (is_valid_contact_address p r.contact_addr)

  abbrev pub domain_update : Domain → Assertion
  domain_update r = do or_throw (has_reference r.ref); or_throw (is_valid_name p r.name)

  abbrev pub trunk_update : Trunk → Assertion
  trunk_update r = do
    or_throw (has_reference r.ref)
    or_throw (is_valid_name p r.name)
    or_throw (is_valid_inbound_uri p r.inbound_uri)

  abbrev pub number_update : INumber → Assertion
  number_update r = do
    or_throw (has_reference r.ref)
    or_throw (is_valid_name p r.name)
    or_throw (is_valid_aor_link r.aor_link)
    or_throw (has_valid_headers r.extra_headers)
    or_throw (is_valid_session_affinity_header r.session_affinity_header)

  unfoldable pub valid_or_throw_create : Request → Assertion
  unfolding has_valid_outbound_uris_or_throw is_valid_contact_address
  valid_or_throw_create (acl r) = acl_create r
  valid_or_throw_create (credentials r) = credentials_create r
  valid_or_throw_create (agent r) = agent_create r
  valid_or_throw_create (peer r) = peer_create r
  valid_or_throw_create (domain r) = domain_create r
  valid_or_throw_create (trunk r) = trunk_create r
  valid_or_throw_create (number r) = number_create r

  unfoldable pub valid_or_throw_update : Request → Assertion
  unfolding is_valid_contact_address
  valid_or_throw_update (acl r) = acl_update r
  valid_or_throw_update (credentials r) = credentials_update r
  valid_or_throw_update (agent r) = agent_update r
  valid_or_throw_update (peer r) = peer_update r
  valid_or_throw_update (domain r) = domain_update r
  valid_or_throw_update (trunk r) = trunk_update r
  valid_or_throw_update (number r) = number_update r

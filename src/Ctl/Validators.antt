-- ===== src/Ctl/Validators.antt =====
-- mods/ctl/src/validators.ts: what is told to a user who types a value. The values are strings.
pub mod Agreement
use routr.Prelude.{
  ℤ, pos, String, Bool, true, false, List, [], ◌∷◌, Option, none, some, Result, ok, err, ◌>>=◌,
  ◌==◌, string_eq, if◌then◌else◌,
}
use routr.Prelude.Int.{ltb_ℤ}
use routr.Validations.{Verdict, valid, bad_request, Check, Packages}
use routr.Validations.Checks.{
  has_name, is_valid_name, has_username, is_valid_username, is_valid_session_affinity_header,
  has_valid_headers, has_aor, is_valid_aor, is_valid_aor_link, is_valid_tel_url, has_domain_uri,
  is_valid_domain_uri,
}
use routr.Validations.Rules.{
  is_valid_acl_rule, has_inbound_uri, is_valid_inbound_uri, is_valid_contact_address, has_host,
  is_valid_host, is_valid_port, is_valid_weight, is_valid_priority,
}
use routr.Ctl.Texts.{string_to_acl, string_to_headers}

pub data Answer : Type 0 where
  accepted : Answer
  message : String → Answer

abbrev pub tell : Verdict → Answer
tell valid = accepted
tell (bad_request reason) = message reason

abbrev pub told : Check → Result Answer
told check = check >>= λ verdict. ok (tell verdict)

-- Both checks run, and the first error is told.
abbrev pub first_of : Verdict → Verdict → Answer
first_of valid next = tell next
first_of (bad_request reason) next = message reason

abbrev pub told_of : Check → Check → Result Answer
told_of first next = first >>= λ a. next >>= λ b. ok (first_of a b)

-- Number(value), with none for NaN.
pub record Numbers : Type 0 where
  pub number : String → Option ℤ

module _ (p : Packages) where
  abbrev pub name_validator : String → Result Answer
  name_validator value = told_of (has_name (some value)) (is_valid_name p (some value))

  -- A split has one part at least, so that the rules are never missing.
  abbrev pub acl_rule_validator : String → Result Answer
  unfolding string_to_acl
  acl_rule_validator value = is_valid_acl_rule p (some (string_to_acl value)) >>= λ verdict.
      elim (string_to_acl value) [
        | [] ↦ ok (message "acl rules are required")
        | rule ∷ rules ↦ ok (tell verdict)
      ]

  abbrev pub domain_uri_validator : String → Result Answer
  domain_uri_validator value =
      told_of (has_domain_uri (some value)) (is_valid_domain_uri p (some value))

  abbrev pub inbound_uri_validator : String → Result Answer
  inbound_uri_validator value =
      told_of (has_inbound_uri (some value)) (is_valid_inbound_uri p (some value))

  abbrev pub contact_addr_validator : String → Result Answer
  unfolding is_valid_contact_address
  contact_addr_validator value = told (is_valid_contact_address p (some value))

  abbrev pub host_validator : String → Result Answer
  host_validator value = told_of (has_host (some value)) (is_valid_host p (some value))

  abbrev pub port_validator : String → Result Answer
  port_validator value = told (is_valid_port p value)

  abbrev pub weight_validator : String → Result Answer
  weight_validator value = told (is_valid_weight p value)

  abbrev pub priority_validator : String → Result Answer
  priority_validator value = told (is_valid_priority p value)

abbrev pub username_validator : String → Result Answer
username_validator value = told_of (has_username (some value)) (is_valid_username (some value))

abbrev pub optional_username_validator : String → Result Answer
optional_username_validator value = told (is_valid_username (some value))

abbrev pub session_affinity_header_validator : String → Result Answer
session_affinity_header_validator value = told (is_valid_session_affinity_header (some value))

abbrev pub headers_validator : String → Result Answer
unfolding string_to_headers
headers_validator value = told (has_valid_headers (some (string_to_headers value)))

abbrev pub aor_validator : String → Result Answer
aor_validator value = told_of (has_aor (some value)) (is_valid_aor (some value))

abbrev pub aor_link_validator : String → Result Answer
aor_link_validator value = told (is_valid_aor_link (some value))

abbrev pub tel_url_validator : String → Result Answer
tel_url_validator value = told (is_valid_tel_url (some value))

abbrev pub max_contacts_validator : Numbers → String → Result Answer
max_contacts_validator numbers value =
    if value == "" then ok accepted else elim (numbers.number value) [
      | none ↦ ok (message "maxContacts must be a number")
      | some n ↦
          if ltb_ℤ n (pos 0) then ok (message "maxContacts must be 0 or greater") else ok accepted
    ]

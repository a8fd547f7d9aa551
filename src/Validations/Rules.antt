-- ===== src/Validations/Rules.antt =====
-- mods/common/src/connect/validations.ts: access rules, addresses, ports and numbers.
use routr.Prelude.{
  parse_int, ℕ, ℤ, pos, String, Bool, true, false, not, ◌&&◌, ◌||◌, List, [], ◌∷◌, Option, none,
  some, ok, ◌==◌, nat_eq, string_eq, head?, get_elem?, or_else, split, if◌then◌else◌, template,
  get_or,
}
use routr.Prelude.Int.{ltb_ℤ}
use routr.Validations.{valid, bad_request, Check, Packages}
use routr.Validations.Checks.{answer, required, first_error}

abbrev is_given {ℓ} : {A : Type ℓ} → Option (List A) → Bool
is_given none = false
is_given (some []) = false
is_given (some (a ∷ rest)) = true

-- The parts of an access control list: `deny` and `allow`.
abbrev pub has_acl_rules : (deny allow : Option (List String)) → Check
has_acl_rules deny allow = answer "acl rules are required" (is_given deny && is_given allow)

module _ (p : Packages) where
  abbrev pub is_valid_cidr : String → Check
  is_valid_cidr cidr =
      answer (template (cidr ∷ " is not a valid cidr or ip" ∷ []))
        (p.is_ip_range_4 cidr || p.is_ip_4 cidr)

  abbrev pub is_valid_acl_rule : Option (List String) → Check
  is_valid_acl_rule rules = first_error is_valid_cidr (get_or rules [])

  abbrev pub has_valid_acl_rules : (deny allow : Option (List String)) → Check
  has_valid_acl_rules deny allow = first_error is_valid_acl_rule (deny ∷ allow ∷ [])

  abbrev fqdn_or_ip : String → Bool
  fqdn_or_ip host = p.is_fqdn host || p.is_ip host

  abbrev pub is_valid_inbound_uri : Option String → Check
  is_valid_inbound_uri none = ok valid
  is_valid_inbound_uri (some uri) =
      answer
        "the inbound URI must be a valid FQDN or IP address (e.g., sip.example.com or 47.132.130.31)"
        (uri == "" || fqdn_or_ip uri)

  abbrev pub is_valid_port : String → Check
  is_valid_port port = answer "the port must be a valid port" (port == "" || p.is_port port)

  abbrev pub is_valid_host : Option String → Check
  is_valid_host none = ok valid
  is_valid_host (some host) =
      answer "the host must be a valid FQDN or IP" (host == "" || fqdn_or_ip host)

  abbrev pub port_part : String → String
  port_part host_part = or_else (get_elem? (split b':' host_part) 1) "5060"

  abbrev pub check_contact : String → Check
  check_contact host_part =
      if fqdn_or_ip host_part
      then answer "the contact port must be a valid port" (p.is_port (port_part host_part))
      else ok (bad_request "the contact address must be a valid FQDN or IP")

  -- The second split is of the host part.
  unfoldable pub is_valid_contact_address : Option String → Check
  unfolding split
  is_valid_contact_address none = ok valid
  is_valid_contact_address (some address) =
      if address == "" then ok valid else check_contact (get_or (head? (split b':' address)) "")

  -- A comparison with NaN is false.
  abbrev pub is_in_range : ℕ → Option ℤ → Bool
  is_in_range low none = true
  is_in_range low (some n) = not (ltb_ℤ n (pos low)) && not (ltb_ℤ (pos 65535) n)

  abbrev integer_from : ℕ → String → String → Check
  integer_from low reason text =
      if text == ""
      then ok valid
      else if p.is_int text
      then answer reason (is_in_range low (parse_int text))
      else ok (bad_request "the priority must be a valid integer")

  abbrev pub is_valid_priority : String → Check
  is_valid_priority = integer_from 0 "the priority must be between 0 and 65535"

  abbrev pub is_valid_weight : String → Check
  is_valid_weight = integer_from 1 "the weight must be between 1 and 65535"

  abbrev pub is_valid_e164 : Option String → Option String → Bool → Check
  is_valid_e164 number country validate_mobile_prefix =
      answer "the telUrl must be a valid e164 number"
        (p.is_phone number country validate_mobile_prefix)

abbrev pub has_inbound_uri : Option String → Check
has_inbound_uri = required "the inboundUri is required"

abbrev pub has_host : Option String → Check
has_host = required "the host is required"

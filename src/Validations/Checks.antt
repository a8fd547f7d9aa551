-- ===== src/Validations/Checks.antt =====
-- mods/common/src/connect/validations.ts. Fields that a request leaves out are `undefined`.
use Prim.Native.Char.{code}
use text.Mathlib.Text.{starts_with}
use routr.Prelude.{
  ℕ, String, Bool, true, false, not, ◌&&◌, ◌||◌, List, [], ◌∷◌, Option, none, some, ok, err,
  type_error, ◌>>=◌, ◌==◌, nat_eq, string_eq, leb, truthy, includes, if◌then◌else◌, get_or,
}
use routr.Validations.{Verdict, valid, bad_request, Check, Packages, on_string}

abbrev pub unless : Bool → String → Verdict
unless true reason = valid
unless false reason = bad_request reason

abbrev pub answer : String → Bool → Check
answer reason test = ok (unless test reason)

abbrev pub required : String → Option String → Check
required reason value = answer reason (truthy value)

abbrev pub has_reference : Option String → Check
has_reference = required "the reference to the resource is required"

abbrev pub has_name : Option String → Check
has_name = required "the friendly name for the resource is required"

abbrev pub is_valid_name : Packages → Option String → Check
is_valid_name p name =
    on_string (p.is_length 1 60) name
    >>= answer "the friendly name must have less than 60 characters"

abbrev pub has_username : Option String → Check
has_username = required "the username is required"

abbrev pub is_valid_username : Option String → Check
is_valid_username none = ok valid
is_valid_username (some username) =
    answer "the username must not contain spaces" (not (includes username " "))

abbrev pub has_password : Option String → Check
has_password = required "the password is required"

abbrev pub has_domain_uri : Option String → Check
has_domain_uri = required "the domainUri is required"

abbrev pub is_valid_domain_uri : Packages → Option String → Check
is_valid_domain_uri p domain_uri =
    on_string p.is_fqdn domain_uri
    >>= answer "the domainUri must be a valid fully qualified domain name"

abbrev pub has_tel_url : Option String → Check
has_tel_url = required "the telUrl is required"

abbrev pub is_valid_tel_url : Option String → Check
is_valid_tel_url none = err type_error
is_valid_tel_url (some tel_url) =
    answer "the telUrl must start with `tel:`" (starts_with tel_url "tel:")

abbrev is_between : ℕ → ℕ → ℕ → Bool
is_between low high n = leb low n && leb n high

-- [a-zA-Z0-9-]
abbrev pub is_allowed : ℕ → Bool
is_allowed n =
    is_between b'a' b'z' n || is_between b'A' b'Z' n || is_between b'0' b'9' n || n == b'-'

abbrev pub all_allowed : String → Bool
all_allowed String.[] = true
all_allowed (String.◌∷◌ c s) = is_allowed (code c) && all_allowed s

abbrev pub ends_with_dash : String → Bool
ends_with_dash String.[] = false
ends_with_dash (String.◌∷◌ c s) = if s == "" then code c == b'-' else ends_with_dash s

abbrev pub is_valid_alphanumeric : String → Bool
is_valid_alphanumeric value = not (ends_with_dash value) && not (value == "") && all_allowed value

abbrev alphanumeric_if_given : String → Option String → Check
alphanumeric_if_given reason none = ok valid
alphanumeric_if_given reason (some value) =
    answer reason (value == "" || is_valid_alphanumeric value)

abbrev pub is_valid_session_affinity_header : Option String → Check
is_valid_session_affinity_header =
    alphanumeric_if_given "the sessionAffinityHeader must be alphanumeric and without spaces"

abbrev pub is_valid_header : Option String → Check
is_valid_header = alphanumeric_if_given "the header must be alphanumeric and without spaces"

pub record Header : Type 0 where
  pub name : Option String
  pub value : Option String

-- The checks of a loop: the first error ends it.
abbrev pub first_error {ℓ} : {A : Type ℓ} → (A → Check) → List A → Check
first_error check [] = ok valid
first_error check (a ∷ rest) = elim (check a) [
  | ok valid ↦ first_error check rest
  | ok (bad_request reason) ↦ ok (bad_request reason)
  | err e ↦ err e
]

abbrev pub is_valid_extra_header : Header → Check
is_valid_extra_header header =
    if truthy header.value
    then is_valid_header header.name
    else ok (bad_request "the header value cannot be empty")

abbrev pub has_valid_headers : Option (List Header) → Check
has_valid_headers headers = first_error is_valid_extra_header (get_or headers [])

abbrev pub has_aor : Option String → Check
has_aor = required "the address of record (aor) is required"

abbrev backend_or_sip : String → Option String → Check
backend_or_sip reason none = ok valid
backend_or_sip reason (some aor) =
    answer reason (aor == "" || starts_with aor "backend:" || starts_with aor "sip:")

abbrev pub is_valid_aor : Option String → Check
is_valid_aor = backend_or_sip "the aor schema must start with `backend:` or `sip:`"

abbrev pub has_aor_link : Option String → Check
has_aor_link = required "the aorLink is required"

abbrev pub is_valid_aor_link : Option String → Check
is_valid_aor_link = backend_or_sip "the aorLink must start with backend: or sip:"

abbrev pub has_city : Option String → Check
has_city = required "the city is required"

abbrev pub has_country : Option String → Check
has_country = required "the country is required"

abbrev pub has_country_iso_code : Option String → Check
has_country_iso_code = required "the countryIsoCode is required"

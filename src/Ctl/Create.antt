-- ===== src/Ctl/Create.antt =====
-- The commands that create a resource: create.ts of each folder of mods/ctl/src/commands.
pub mod Loops
pub mod Chosen
use routr.Prelude.{
  ℤ, pos, negsuc, int_eq, String, Bool, true, false, List, [], ◌∷◌, map, Option, none, some, Error,
  Result, ok, err, type_error, ◌==◌, string_eq, option_eq, find, defined, truthy, get_or, parse_int,
  to_upper, if◌then◌else◌,
}
use routr.Prelude.Exec.{Exec, pure, lift, ◌>>=◌}
use routr.Prelude.Maps.{lookup, insert}
use routr.Validations.{Packages}
use routr.Ctl.Texts.{string_to_acl, string_to_headers}
use routr.Ctl.Validators.{
  Answer, accepted, message, Numbers, name_validator, acl_rule_validator, username_validator,
  aor_validator, aor_link_validator, contact_addr_validator, max_contacts_validator,
  tel_url_validator, session_affinity_header_validator, headers_validator,
}
use routr.Ctl.Countries.{countries}
use routr.Ctl.Prompts.{
  Value, text, flag, number, texts, headers, undefined, Answers, Question, Choice, autocomplete,
  password, typed, chosen, confirmed, defaulted, or_nothing, plain, Kind, acls, agents, credentials,
  numbers, peers, trunks, Terminal, Outcome, text_of, is_set, submit, catching,
}

abbrev pub privacy_choices : List Choice
privacy_choices = ("None", some "NONE") ∷ ("Private", some "ID") ∷ []

abbrev pub algorithm_choices : List Choice
algorithm_choices =
    ("Round Robin", some "ROUND_ROBIN") ∷ ("Least Sessions", some "LEAST_SESSIONS") ∷ []

abbrev required : String → String → Result Answer
required reason value = if value == "" then ok (message reason) else ok accepted

-- answers.maxContacts ? parseInt(answers.maxContacts) : -1, where the answer is a number when the
-- default of an update was one.
abbrev max_contacts_sent : Option Value → Value
max_contacts_sent (some (text typed)) =
    if typed == "" then number (some (negsuc 0)) else number (parse_int typed)
max_contacts_sent (some (number (some n))) =
    if n == pos 0 then number (some (negsuc 0)) else number (some n)
max_contacts_sent _ = number (some (negsuc 0))

unfoldable pub with_max_contacts : Answers → Answers
unfolding parse_int insert lookup
with_max_contacts answers =
    insert "maxContacts" (max_contacts_sent (lookup "maxContacts" answers)) answers

-- CT.Privacy[...], by the name of a constant.
abbrev pub privacy_constant : String → Value
privacy_constant name =
    if name == "NONE" then text "NONE" else if name == "PRIVATE" then text "ID" else undefined

-- Re-write privacy to enum
unfoldable pub with_privacy : Answers → Result Answers
unfolding to_upper insert lookup
with_privacy answers = elim (text_of (lookup "privacy" answers)) [
  | none ↦ err type_error
  | some answer ↦ ok (insert "privacy" (privacy_constant (to_upper answer)) answers)
]

-- countries.find((country) => country.value === code).name
unfoldable pub country_name : Option String → Result String
country_name code = elim (find (λ country. some country.1 == code) countries) [
  | none ↦ err type_error
  | some country ↦ ok country.0
]

unfoldable pub with_texts : (String → Value) → String → Answers → Result Answers
unfolding insert lookup
with_texts read name answers = elim (text_of (lookup name answers)) [
  | none ↦ err type_error
  | some typed ↦ ok (insert name (read typed) answers)
]

module _ {S : Type 0} (t : Terminal S) (p : Packages) (n : Numbers) where
  abbrev pub acl_questions : List Question
  acl_questions =
      typed "name" (name_validator p)
      ∷ defaulted (some (text "0.0.0.0/0")) (typed "deny" (acl_rule_validator p))
      ∷ typed "allow" (acl_rule_validator p)
      ∷ confirmed "confirm"
      ∷ []

  unfoldable pub create_acl : Exec S Outcome
  unfolding with_texts string_to_acl submit catching
  create_acl = catching t "This ACL already exist" (
      t.prompt acl_questions >>= λ answers.
      lift (with_texts (λ s. texts (string_to_acl s)) "allow" answers) >>= λ allowing.
      lift (with_texts (λ s. texts (string_to_acl s)) "deny" allowing) >>= λ denying.
      submit t acls (is_set (lookup "confirm" answers)) (plain denying))

  abbrev pub credentials_questions : List Question
  credentials_questions =
      typed "name" (name_validator p)
      ∷ typed "username" username_validator
      ∷ record (typed "password" (required "the password is required")) { question_type = password }
      ∷ confirmed "confirm"
      ∷ []

  -- Only the call is inside the `try`.
  unfoldable pub create_credentials : Exec S Outcome
  unfolding submit catching
  create_credentials = t.prompt credentials_questions >>= λ answers.
      catching t "This Credentials already exist"
        (submit t credentials (is_set (lookup "confirm" answers)) (plain answers))

  abbrev pub agent_questions : List Choice → List Choice → List Question
  agent_questions domains_list credentials_list =
      typed "name" (name_validator p)
      ∷ chosen "domainRef" (or_nothing domains_list)
      ∷ typed "username" username_validator
      ∷ chosen "credentialsRef" (or_nothing credentials_list)
      ∷ typed "maxContacts" (max_contacts_validator n)
      ∷ defaulted (some (text "NONE")) (chosen "privacy" privacy_choices)
      ∷ defaulted (some (flag true)) (confirmed "enabled")
      ∷ confirmed "confirm"
      ∷ []

  unfoldable pub create_agent : Exec S Outcome
  unfolding with_privacy with_max_contacts submit catching
  create_agent = catching t "This Agent already exist" (
      t.domain_choices >>= λ domains_list. t.choices_of credentials >>= λ credentials_list.
      t.prompt (agent_questions domains_list credentials_list) >>= λ answers.
      lift (with_privacy answers) >>= λ rewritten.
      submit t agents (is_set (lookup "confirm" rewritten)) (plain (with_max_contacts rewritten)))

  abbrev pub peer_questions : List Choice → List Choice → List Question
  peer_questions acl_list credentials_list =
      typed "name" (name_validator p)
      ∷ typed "username" username_validator
      ∷ typed "aor" aor_validator
      ∷ typed "contactAddr" (contact_addr_validator p)
      ∷ typed "maxContacts" (max_contacts_validator n)
      ∷ chosen "accessControlListRef" (or_nothing acl_list)
      ∷ chosen "credentialsRef" (or_nothing credentials_list)
      ∷ defaulted (some (flag false)) (confirmed "withSessionAffinity")
      ∷ defaulted (some (text "ROUND_ROBIN")) (chosen "balancingAlgorithm" algorithm_choices)
      ∷ defaulted (some (flag true)) (confirmed "enabled")
      ∷ confirmed "confirm"
      ∷ []

  unfoldable pub create_peer : Exec S Outcome
  unfolding with_max_contacts submit catching
  create_peer = catching t "This Peer already exist" (
      t.choices_of acls >>= λ acl_list. t.choices_of credentials >>= λ credentials_list.
      t.prompt (peer_questions acl_list credentials_list) >>= λ answers.
      submit t peers (is_set (lookup "confirm" answers)) (plain (with_max_contacts answers)))

  abbrev pub number_questions : List Choice → List Question
  number_questions trunks_choices =
      typed "name" (name_validator p)
      ∷ typed "telUrl" tel_url_validator
      ∷ typed "aorLink" aor_link_validator
      ∷ chosen "trunkRef" (or_nothing trunks_choices)
      ∷ typed "city" (required "the city is required")
      ∷ record (chosen "countryIsoCode" (map (λ c. (c.0, some c.1)) countries)) {
        question_type = autocomplete;
      }
      ∷ typed "sessionAffinityHeader" session_affinity_header_validator
      ∷ typed "extraHeaders" headers_validator
      ∷ confirmed "confirm"
      ∷ []

  unfoldable pub create_number : Exec S Outcome
  unfolding with_texts string_to_headers country_name submit catching
  create_number = catching t "This Number already exist" (
      t.choices_of trunks >>= λ trunks_choices.
      t.prompt (number_questions trunks_choices) >>= λ answers.
      lift (with_texts (λ s. headers (string_to_headers s)) "extraHeaders" answers)
      >>= λ with_headers.
          lift (country_name (text_of (lookup "countryIsoCode" with_headers))) >>= λ country.
          submit t numbers (is_set (lookup "confirm" with_headers))
            (plain (insert "country" (text country) with_headers)))

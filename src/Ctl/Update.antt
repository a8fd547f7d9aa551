-- ===== src/Ctl/Update.antt =====
-- The commands that update a resource: update.ts of acl, credentials, agents, peers and numbers of
-- mods/ctl/src/commands. The defaults of the questions are the fields the resource has.
pub mod Loops
use routr.Prelude.{
  ℤ, pos, negsuc, int_eq, String, Bool, true, false, List, [], ◌∷◌, Option, none, some, Error,
  Result, ok, err, type_error, ◌==◌, string_eq, truthy, get_or, map, template, if◌then◌else◌,
}
use routr.Prelude.Exec.{Exec, pure, lift, ◌>>=◌}
use routr.Prelude.Maps.{lookup, insert}
use routr.Prelude.Splits.{comma, join}
use routr.Validations.{Packages}
use routr.Validations.Checks.{Header}
use routr.Ctl.Texts.{string_to_acl, string_to_headers}
use routr.Ctl.Validators.{
  Numbers, name_validator, acl_rule_validator, username_validator, aor_validator,
  contact_addr_validator, max_contacts_validator, aor_link_validator,
  session_affinity_header_validator, headers_validator,
}
use routr.Ctl.Create.{
  privacy_choices, algorithm_choices, with_privacy, with_max_contacts, with_texts,
}
use routr.Ctl.Prompts.{
  Value, text, number, texts, headers, Answers, Question, Choice, input, password, typed, chosen,
  confirmed, defaulted, or_nothing, plain, Kind, acls, agents, credentials, numbers, peers, trunks,
  Terminal, Outcome, text_of, is_set, submit_update, failing,
}

-- rules.join(",")
abbrev joined : Option Value → Result Value
joined (some (texts rules)) = ok (text (join comma rules))
joined _ = err type_error

-- maxContacts === -1 ? "" : maxContacts
abbrev max_contacts_default : Option Value → Option Value
max_contacts_default (some (number (some n))) =
    if n == negsuc 0 then some (text "") else some (number (some n))
max_contacts_default v = v

-- contactAddr || undefined
abbrev unless_empty : Option Value → Option Value
unless_empty v = if truthy (text_of v) then v else none

-- extraHeaders?.map((header) => `${header.name}:${header.value}`).join(",") || undefined
abbrev header_text : Header → String
header_text header =
    template (get_or header.name "undefined" ∷ ":" ∷ get_or header.value "undefined" ∷ [])

abbrev headers_default : Option Value → Option Value
headers_default (some (headers given)) =
    unless_empty (some (text (join comma (map header_text given))))
headers_default _ = none

abbrev pub for_ref : String → Answers → Answers
for_ref ref answers = insert "ref" (text ref) answers

-- The question proposes the value the resource has.
abbrev pub kept : Answers → Question → Question
kept from_db question = defaulted (lookup question.name from_db) question

module _ {S : Type 0} (t : Terminal S) (p : Packages) (n : Numbers) where
  abbrev pub acl_update_questions : Answers → Value → Value → List Question
  acl_update_questions acl_from_db deny allow =
      kept acl_from_db (typed "name" (name_validator p))
      ∷ defaulted (some deny) (typed "deny" (acl_rule_validator p))
      ∷ defaulted (some allow) (typed "allow" (acl_rule_validator p))
      ∷ confirmed "confirm"
      ∷ []

  unfoldable pub update_acl : String → Exec S Outcome
  unfolding with_texts string_to_acl submit_update failing lookup insert join
  update_acl ref = failing t (
      t.get acls ref >>= λ acl_from_db. lift (joined (lookup "deny" acl_from_db)) >>= λ deny.
      lift (joined (lookup "allow" acl_from_db)) >>= λ allow.
      t.prompt (acl_update_questions acl_from_db deny allow) >>= λ answers.
      lift (with_texts (λ s. texts (string_to_acl s)) "allow" (for_ref ref answers)) >>= λ allowing.
      lift (with_texts (λ s. texts (string_to_acl s)) "deny" allowing) >>= λ denying.
      submit_update t acls (is_set (lookup "confirm" denying)) (plain denying))

  abbrev pub credentials_update_questions : Answers → List Question
  credentials_update_questions credentials_from_db =
      kept credentials_from_db (typed "name" (name_validator p))
      ∷ kept credentials_from_db (typed "username" username_validator)
      ∷ record (chosen "password" []) { question_type = password }
      ∷ confirmed "confirm"
      ∷ []

  unfoldable pub update_credentials : String → Exec S Outcome
  unfolding submit_update failing lookup insert
  update_credentials ref = failing t (
      t.get credentials ref >>= λ credentials_from_db.
      t.prompt (credentials_update_questions credentials_from_db) >>= λ answers.
      submit_update t credentials (is_set (lookup "confirm" answers)) (plain (for_ref ref answers)))

  abbrev pub agent_update_questions : Answers → List Choice → List Choice → List Question
  agent_update_questions agent_from_db domains_list credentials_list =
      kept agent_from_db (typed "name" (name_validator p))
      ∷ chosen "domainRef" (or_nothing domains_list)
      ∷ kept agent_from_db (chosen "credentialsRef" (or_nothing credentials_list))
      ∷ defaulted (max_contacts_default (lookup "maxContacts" agent_from_db))
          (typed "maxContacts" (max_contacts_validator n))
      ∷ kept agent_from_db (chosen "privacy" privacy_choices)
      ∷ kept agent_from_db (confirmed "enabled")
      ∷ confirmed "confirm"
      ∷ []

  unfoldable pub update_agent : String → Exec S Outcome
  unfolding with_privacy with_max_contacts submit_update failing lookup insert
  update_agent ref = failing t (
      t.get agents ref >>= λ agent_from_db. t.domain_choices >>= λ domains_list.
      t.choices_of credentials >>= λ credentials_list.
      t.prompt (agent_update_questions agent_from_db domains_list credentials_list) >>= λ answers.
      lift (with_privacy answers) >>= λ rewritten.
      submit_update t agents (is_set (lookup "confirm" rewritten))
        (plain (with_max_contacts (for_ref ref rewritten))))

  -- The user name is not asked for.
  abbrev pub peer_update_questions : Answers → List Choice → List Choice → List Question
  peer_update_questions peer_from_db acl_list credentials_list =
      kept peer_from_db (typed "name" (name_validator p))
      ∷ kept peer_from_db (typed "aor" aor_validator)
      ∷ defaulted (unless_empty (lookup "contactAddr" peer_from_db))
          (typed "contactAddr" (contact_addr_validator p))
      ∷ defaulted (max_contacts_default (lookup "maxContacts" peer_from_db))
          (typed "maxContacts" (max_contacts_validator n))
      ∷ kept peer_from_db (chosen "accessControlListRef" (or_nothing acl_list))
      ∷ kept peer_from_db (chosen "credentialsRef" (or_nothing credentials_list))
      ∷ kept peer_from_db (confirmed "withSessionAffinity")
      ∷ kept peer_from_db (chosen "balancingAlgorithm" algorithm_choices)
      ∷ kept peer_from_db (confirmed "enabled")
      ∷ confirmed "confirm"
      ∷ []

  unfoldable pub update_peer : String → Exec S Outcome
  unfolding with_max_contacts submit_update failing lookup insert
  update_peer ref = failing t (
      t.get peers ref >>= λ peer_from_db. t.choices_of acls >>= λ acl_list.
      t.choices_of credentials >>= λ credentials_list.
      t.prompt (peer_update_questions peer_from_db acl_list credentials_list) >>= λ answers.
      submit_update t peers (is_set (lookup "confirm" answers))
        (plain (with_max_contacts (for_ref ref answers))))

  -- The telephone number, the city and the country are not asked for.
  abbrev pub number_update_questions : Answers → List Choice → List Question
  number_update_questions number_from_db trunks_choices =
      kept number_from_db (typed "name" (name_validator p))
      ∷ defaulted (unless_empty (lookup "aorLink" number_from_db))
          (typed "aorLink" aor_link_validator)
      ∷ kept number_from_db (chosen "trunkRef" (or_nothing trunks_choices))
      ∷ defaulted (unless_empty (lookup "sessionAffinityHeader" number_from_db))
          (typed "sessionAffinityHeader" session_affinity_header_validator)
      ∷ defaulted (headers_default (lookup "extraHeaders" number_from_db))
          (typed "extraHeaders" headers_validator)
      ∷ confirmed "confirm"
      ∷ []

  unfoldable pub update_number : String → Exec S Outcome
  unfolding with_texts string_to_headers submit_update failing lookup insert join
  update_number ref = failing t (
      t.get numbers ref >>= λ number_from_db. t.choices_of trunks >>= λ trunks_choices.
      t.prompt (number_update_questions number_from_db trunks_choices) >>= λ answers.
      lift (with_texts (λ s. headers (string_to_headers s)) "extraHeaders" (for_ref ref answers))
      >>= λ with_headers.
          submit_update t numbers (is_set (lookup "confirm" with_headers)) (plain with_headers))

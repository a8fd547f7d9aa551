-- ===== src/Ctl/Create/Loops.antt =====
-- The commands that ask for a list: create.ts of domains and trunks of mods/ctl/src/commands. The
-- user may go on for ever: the fuel is the number of rounds, and none is a loop that needs more.
use routr.Prelude.{
  ℕ, zero, suc, String, Bool, true, false, List, [], ◌∷◌, Option, none, some, if◌then◌else◌, truthy,
}
use routr.Prelude.Exec.{Exec, pure, ◌>>=◌}
use routr.Prelude.Maps.{lookup, insert}
use routr.Validations.{Packages}
use routr.Ctl.Validators.{
  name_validator, domain_uri_validator, inbound_uri_validator, host_validator, port_validator,
  optional_username_validator, priority_validator, weight_validator,
}
use routr.Ctl.Prompts.{
  Value, text, flag, Answers, Question, Choice, input, typed, chosen, confirmed, defaulted,
  or_nothing, CreateRequest, Kind, acls, credentials, domains, numbers, trunks, Terminal, Outcome,
  text_of, is_set, submit, catching,
}

abbrev answered : String → Answers → Option String
answered name answers = text_of (lookup name answers)

-- A field with a value that may be `undefined`.
abbrev field : String → Option Value → Answers → Answers
field name none uri = uri
field name (some v) uri = insert name v uri

abbrev pub copied : String → Answers → Answers → Answers
copied name answers uri = field name (lookup name answers) uri

unfoldable pub uri_with : (host port transport user priority weight : Option Value) → Answers
unfolding insert
uri_with host port transport user priority weight = insert "enabled" (flag true) (
    field "weight" weight (
      field "priority" priority (
        field "user" user
          (field "transport" transport (field "port" port (field "host" host []))))))

-- What is pushed to the URIs of the trunk.
unfoldable pub uri_of : Answers → Answers
unfolding uri_with lookup
uri_of group2 =
    uri_with (lookup "host" group2) (lookup "port" group2) (lookup "transport" group2)
      (lookup "user" group2) (lookup "priority" group2) (lookup "weight" group2)

-- A policy is pushed only for a number.
unfoldable pub policies_of : Answers → List Answers → List Answers
unfolding insert lookup
policies_of group2 rest =
    if truthy (answered "numberRef" group2)
    then copied "rule" group2 (copied "numberRef" group2 []) ∷ rest
    else rest

abbrev pub continued : Option (List Answers) → (List Answers → List Answers) → Option (List Answers)
continued none add = none
continued (some rest) add = some (add rest)

module _ {S : Type 0} (t : Terminal S) (p : Packages) where
  abbrev pub trunk_questions : List Choice → List Choice → List Question
  trunk_questions acl_choices credentials_choice =
      typed "name" (name_validator p)
      ∷ typed "inboundUri" (inbound_uri_validator p)
      ∷ chosen "accessControlListRef" (or_nothing acl_choices)
      ∷ chosen "inboundCredentialsRef" (or_nothing credentials_choice)
      ∷ chosen "outboundCredentialsRef" (or_nothing credentials_choice)
      ∷ defaulted (some (flag false)) (confirmed "sendRegister")
      ∷ defaulted (some (flag false)) (confirmed "addOutboundUri")
      ∷ []

  abbrev pub uri_questions : List Question
  uri_questions =
      typed "host" (host_validator p)
      ∷ defaulted (some (text "5060")) (typed "port" (port_validator p))
      ∷ defaulted (some (text "UDP")) (
          chosen "transport" (("UDP", some "UDP") ∷ ("TCP", some "TCP") ∷ ("TLS", some "TLS") ∷ []))
      ∷ typed "user" optional_username_validator
      ∷ defaulted (some (text "10")) (typed "priority" (priority_validator p))
      ∷ defaulted (some (text "10")) (typed "weight" (weight_validator p))
      ∷ defaulted (some (flag false)) (confirmed "addOutboundUri")
      ∷ []

  -- while (addOutboundUri)
  unfoldable pub ask_uris : ℕ → Bool → Exec S (Option (List Answers))
  unfolding uri_of
  ask_uris fuel false = pure (some [])
  ask_uris zero true = pure none
  ask_uris (suc fuel) true = t.prompt uri_questions >>= λ group2.
      ask_uris fuel (is_set (lookup "addOutboundUri" group2)) >>= λ rest.
      pure (continued rest (λ uris. uri_of group2 ∷ uris))

  -- The last question, and what is done with the answer; none is a loop that needs more rounds.
  abbrev finish : Kind → Option CreateRequest → Exec S (Option Outcome)
  finish kind none = pure none
  finish kind (some request) = t.prompt (confirmed "confirm" ∷ []) >>= λ group3.
      submit t kind (is_set (lookup "confirm" group3)) request >>= λ outcome. pure (some outcome)

  abbrev pub trunk_request : Answers → Option (List Answers) → Option CreateRequest
  trunk_request group1 none = none
  trunk_request group1 (some uris) =
      some (record { fields = group1; uris = some uris; egress_policies = none })

  unfoldable pub create_trunk : ℕ → Exec S (Option Outcome)
  unfolding ask_uris submit catching
  create_trunk fuel = catching t "This Trunk already exist" (
      t.choices_of acls >>= λ acl_choices. t.choices_of credentials >>= λ credentials_choice.
      t.prompt (trunk_questions acl_choices credentials_choice) >>= λ group1.
      ask_uris fuel (is_set (lookup "addOutboundUri" group1)) >>= λ uris.
      finish trunks (trunk_request group1 uris))

  abbrev pub has_choices : List Choice → Bool
  has_choices [] = false
  has_choices (_ ∷ _) = true

  abbrev pub domain_questions : List Choice → List Choice → List Question
  domain_questions acl_choices number_choices =
      typed "name" (name_validator p)
      ∷ typed "domainUri" (domain_uri_validator p)
      ∷ chosen "accessControlListRef" (or_nothing acl_choices)
      ∷ record (defaulted (some (flag false)) (confirmed "addEgressRule")) {
        applies = λ answers. has_choices number_choices;
      }
      ∷ []

  abbrev for_number : Answers → Bool
  for_number answers = truthy (answered "numberRef" answers)

  -- Whether the number is asked for, and the numbers to choose from.
  abbrev pub policy_questions : Bool → List Choice → List Question
  policy_questions asks_number number_choices =
      record (chosen "numberRef" (or_nothing number_choices)) { applies = λ answers. asks_number }
      ∷ record (defaulted (some (text ".*")) (chosen "rule" [])) {
        question_type = input;
        applies = for_number;
      }
      ∷ record (defaulted (some (flag false)) (confirmed "addEgressRule")) { applies = for_number }
      ∷ []

  -- while (addEgressRule)
  unfoldable pub ask_policies : List Question → ℕ → Bool → Exec S (Option (List Answers))
  unfolding policies_of
  ask_policies questions fuel false = pure (some [])
  ask_policies questions zero true = pure none
  ask_policies questions (suc fuel) true = t.prompt questions >>= λ group2.
      ask_policies questions fuel (is_set (lookup "addEgressRule" group2)) >>= λ rest.
      pure (continued rest (policies_of group2))

  abbrev pub domain_request : Answers → Option (List Answers) → Option CreateRequest
  domain_request group1 none = none
  domain_request group1 (some policies) =
      some (record { fields = group1; uris = none; egress_policies = some policies })

  unfoldable pub create_domain : ℕ → Exec S (Option Outcome)
  unfolding ask_policies submit catching
  create_domain fuel = catching t "This Domain already exist" (
      t.choices_of acls >>= λ acl_choices. t.choices_of numbers >>= λ number_choices.
      t.prompt (domain_questions acl_choices number_choices) >>= λ group1.
      ask_policies (policy_questions (has_choices number_choices) number_choices) fuel
        (is_set (lookup "addEgressRule" group1))
      >>= λ policies. finish domains (domain_request group1 policies))

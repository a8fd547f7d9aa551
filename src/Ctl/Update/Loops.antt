-- ===== src/Ctl/Update/Loops.antt =====
-- The commands that update what has a list: update.ts of domains and trunks of mods/ctl/src/commands.
-- The fuel is the number of rounds, as for the commands that create.
use routr.Prelude.{ℕ, String, true, false, List, [], ◌∷◌, Option, none, some}
use routr.Prelude.Exec.{Exec, pure, ◌>>=◌}
use routr.Prelude.Maps.{lookup, insert}
use routr.Validations.{Packages}
use routr.Ctl.Validators.{name_validator, inbound_uri_validator}
use routr.Ctl.Prompts.{
  flag, Answers, Question, Choice, typed, chosen, confirmed, defaulted, or_nothing, CreateRequest,
  Kind, acls, credentials, domains, numbers, trunks, Terminal, Outcome, is_set, submit_update,
  failing,
}
use routr.Ctl.Create.Loops.{
  ask_uris, ask_policies, policy_questions, domain_request, trunk_request, has_choices, copied,
}
use routr.Ctl.Update.{kept}

-- { ref: from_db.ref, ...group1 }
abbrev with_ref : Answers → Answers → Answers
with_ref from_db group1 = elim (lookup "ref" group1) [
  | some _ ↦ group1
  | none ↦ copied "ref" from_db group1
]

module _ {S : Type 0} (t : Terminal S) (p : Packages) where
  abbrev finish_update : Kind → Option CreateRequest → Exec S (Option Outcome)
  finish_update kind none = pure none
  finish_update kind (some request) = t.prompt (confirmed "confirm" ∷ []) >>= λ group3.
      submit_update t kind (is_set (lookup "confirm" group3)) request >>= λ outcome.
      pure (some outcome)

  abbrev pub trunk_update_questions : Answers → List Choice → List Choice → List Question
  trunk_update_questions trunk_from_db acl_choices credentials_choice =
      kept trunk_from_db (typed "name" (name_validator p))
      ∷ kept trunk_from_db (typed "inboundUri" (inbound_uri_validator p))
      ∷ kept trunk_from_db (chosen "accessControlListRef" (or_nothing acl_choices))
      ∷ kept trunk_from_db (chosen "inboundCredentialsRef" (or_nothing credentials_choice))
      ∷ kept trunk_from_db (chosen "outboundCredentialsRef" (or_nothing credentials_choice))
      ∷ kept trunk_from_db (confirmed "sendRegister")
      ∷ defaulted (some (flag false)) (confirmed "addOutboundUri")
      ∷ []

  unfoldable pub update_trunk : String → ℕ → Exec S (Option Outcome)
  unfolding ask_uris submit_update failing lookup insert
  update_trunk ref fuel = failing t (
      t.get trunks ref >>= λ trunk_from_db. t.choices_of acls >>= λ acl_choices.
      t.choices_of credentials >>= λ credentials_choice.
      t.prompt (trunk_update_questions trunk_from_db acl_choices credentials_choice) >>= λ group1.
      ask_uris t p fuel (is_set (lookup "addOutboundUri" group1)) >>= λ uris.
      finish_update trunks (trunk_request t p (with_ref trunk_from_db group1) uris))

  -- It is the access control lists that are counted before an egress rule is offered.
  abbrev pub domain_update_questions : Answers → List Choice → List Question
  domain_update_questions domain_from_db acl_choices =
      kept domain_from_db (typed "name" (name_validator p))
      ∷ kept domain_from_db (chosen "accessControlListRef" (or_nothing acl_choices))
      ∷ record (defaulted (some (flag false)) (confirmed "addEgressRule")) {
        applies = λ answers. has_choices t p acl_choices;
      }
      ∷ []

  unfoldable pub update_domain : String → ℕ → Exec S (Option Outcome)
  unfolding ask_policies submit_update failing lookup insert
  update_domain ref fuel = failing t (
      t.get domains ref >>= λ domain_from_db. t.choices_of acls >>= λ acl_choices.
      t.choices_of numbers >>= λ number_choices.
      t.prompt (domain_update_questions domain_from_db acl_choices) >>= λ group1.
      ask_policies t p (policy_questions t p true number_choices) fuel
        (is_set (lookup "addEgressRule" group1))
      >>= λ policies.
          finish_update domains (domain_request t p (with_ref domain_from_db group1) policies))

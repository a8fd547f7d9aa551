-- ===== src/PgData/Mappers/Domains.antt =====
-- Domains, with their egress policies, and agents, with their domains: mods/pgdata/src/mappers.
use routr.Prelude.{List, map, Option, none, some}
use routr.PgData.Mappers.{
  Domain, EgressPolicy, Agent, base_to_prisma, or_null, ref_of_rules, acl_to_dto,
  number_to_dto_without_trunk, credentials_to_dto,
}

module _ {J : Type 0} where
  -- A policy that is created has a rule and the reference of its number.
  abbrev pub policy_to_prisma : EgressPolicy J → EgressPolicy J
  policy_to_prisma policy = record policy { number = none }

  abbrev pub policies_to_prisma : Option (List (EgressPolicy J)) → Option (List (EgressPolicy J))
  policies_to_prisma none = none
  policies_to_prisma (some policies) = some (map policy_to_prisma policies)

  -- The policies are given as `{ create: policies }`.
  abbrev pub domain_to_prisma : Domain J → Domain J
  domain_to_prisma domain = record domain {
    base = base_to_prisma domain.base;
    access_control_list_ref = or_null domain.access_control_list_ref;
    egress_policies = policies_to_prisma domain.egress_policies;
  }

  abbrev pub policy_to_dto : EgressPolicy J → EgressPolicy J
  policy_to_dto policy = record policy { number = number_to_dto_without_trunk policy.number }

  abbrev pub policies_to_dto : Option (List (EgressPolicy J)) → Option (List (EgressPolicy J))
  policies_to_dto none = none
  policies_to_dto (some policies) = some (map policy_to_dto policies)

  unfoldable pub domain_to_dto : Option (Domain J) → Option (Domain J)
  domain_to_dto none = none
  domain_to_dto (some domain) = some (record domain {
    access_control_list_ref = ref_of_rules domain.access_control_list;
    access_control_list = acl_to_dto domain.access_control_list;
    egress_policies = policies_to_dto domain.egress_policies;
  })

  unfoldable pub agent_to_dto : Option (Agent J) → Option (Agent J)
  unfolding domain_to_dto
  agent_to_dto none = none
  agent_to_dto (some agent) = some (record agent {
    domain = domain_to_dto agent.domain;
    credentials = credentials_to_dto agent.credentials;
  })

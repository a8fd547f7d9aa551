-- ===== src/PgData/Mappers/Kinds.antt =====
-- The mappings of every kind: `getManager` of mods/pgdata/src/mappers/utils.ts.
use routr.Prelude.{Option, none, some}
use routr.PgData.Mappers.{
  AccessControlList, Credentials, Agent, Peer, Domain, Trunk, INumber, acl_to_prisma, acl_to_dto,
  credentials_to_prisma, credentials_to_dto, agent_to_prisma, peer_to_prisma, peer_to_dto,
  trunk_to_prisma, trunk_to_dto, number_to_prisma, number_to_dto,
}
use routr.PgData.Mappers.Domains.{domain_to_prisma, domain_to_dto, agent_to_dto}

pub data Resource (J : Type 0) : Type 0 where
  acl : AccessControlList J → Resource J
  credentials : Credentials J → Resource J
  agent : Agent J → Resource J
  peer : Peer J → Resource J
  domain : Domain J → Resource J
  trunk : Trunk J → Resource J
  number : INumber J → Resource J

module _ {J : Type 0} where
  -- getManager(kind), and its mappings.
  unfoldable pub map_to_prisma : Resource J → Resource J
  map_to_prisma (acl r) = acl (acl_to_prisma r)
  map_to_prisma (credentials r) = credentials (credentials_to_prisma r)
  map_to_prisma (agent r) = agent (agent_to_prisma r)
  map_to_prisma (peer r) = peer (peer_to_prisma r)
  map_to_prisma (domain r) = domain (domain_to_prisma r)
  map_to_prisma (trunk r) = trunk (trunk_to_prisma r)
  map_to_prisma (number r) = number (number_to_prisma r)

  abbrev kept {ℓ} : {A : Type ℓ} → (A → Resource J) → Resource J → Option A → Resource J
  kept into r none = r
  kept into r (some x) = into x

  unfoldable pub map_to_dto : Resource J → Resource J
  unfolding agent_to_dto peer_to_dto domain_to_dto trunk_to_dto number_to_dto
  map_to_dto (acl r) = kept acl (acl r) (acl_to_dto (some r))
  map_to_dto (credentials r) = kept credentials (credentials r) (credentials_to_dto (some r))
  map_to_dto (agent r) = kept agent (agent r) (agent_to_dto (some r))
  map_to_dto (peer r) = kept peer (peer r) (peer_to_dto (some r))
  map_to_dto (domain r) = kept domain (domain r) (domain_to_dto (some r))
  map_to_dto (trunk r) = kept trunk (trunk r) (trunk_to_dto (some r))
  map_to_dto (number r) = kept number (number r) (number_to_dto (some r))

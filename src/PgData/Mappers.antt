-- ===== src/PgData/Mappers.antt =====
-- The resources as mods/common/src/connect/types.ts declares them, and as the database client takes
-- and gives them: mods/pgdata/src/mappers. `none` is `undefined`; in a reference to another resource
-- of what is given to the database it is `null`. Times are in milliseconds on both sides, so that
-- the division by 1000 is left out. `J` is the type of the field `extended`.
pub mod Domains
pub mod Kinds
pub mod Service
pub mod Again
use routr.Prelude.{
  ℤ, pos, String, Bool, true, List, [], ◌∷◌, map, Option, none, some, truthy, to_upper, get_or,
  if◌then◌else◌,
}
use routr.Sip.{LoadBalancingAlgorithm, unspecified, round_robin, least_sessions}
use routr.Validations.Checks.{Header}

pub data ApiVersion : Type 0 where
  v2beta1 v2 : ApiVersion

pub data Privacy : Type 0 where
  private nothing : Privacy

pub record Base (J : Type 0) : Type 0 where
  pub api_version : Option ApiVersion
  pub ref : Option String
  pub name : Option String
  pub created_at : Option ℤ
  pub updated_at : Option ℤ
  pub extended : Option J

pub record AccessControlList (J : Type 0) : Type 0 where
  pub base : Base J
  pub allow : Option (List String)
  pub deny : Option (List String)

pub record Credentials (J : Type 0) : Type 0 where
  pub base : Base J
  pub username : Option String
  pub password : Option String

pub record TrunkUri : Type 0 where
  pub ref : Option String
  pub trunk_ref : Option String
  pub host : String
  pub port : ℤ
  pub transport : String
  pub user : Option String
  pub weight : ℤ
  pub priority : ℤ
  pub enabled : Bool

pub record Trunk (J : Type 0) : Type 0 where
  pub base : Base J
  pub send_register : Option Bool
  pub inbound_uri : Option String
  pub access_control_list_ref : Option String
  pub access_control_list : Option (AccessControlList J)
  pub inbound_credentials_ref : Option String
  pub inbound_credentials : Option (Credentials J)
  pub outbound_credentials_ref : Option String
  pub outbound_credentials : Option (Credentials J)
  pub uris : Option (List TrunkUri)

pub record INumber (J : Type 0) : Type 0 where
  pub base : Base J
  pub tel_url : Option String
  pub aor_link : Option String
  pub city : Option String
  pub country : Option String
  pub country_iso_code : Option String
  pub session_affinity_header : Option String
  pub extra_headers : Option (List Header)
  pub trunk_ref : Option String
  pub trunk : Option (Trunk J)

pub record EgressPolicy (J : Type 0) : Type 0 where
  pub rule : String
  pub number_ref : String
  pub number : Option (INumber J)

pub record Domain (J : Type 0) : Type 0 where
  pub base : Base J
  pub domain_uri : Option String
  pub access_control_list_ref : Option String
  pub access_control_list : Option (AccessControlList J)
  pub egress_policies : Option (List (EgressPolicy J))

pub record Agent (J : Type 0) : Type 0 where
  pub base : Base J
  pub username : Option String
  pub privacy : Option Privacy
  pub enabled : Option Bool
  pub domain_ref : Option String
  pub domain : Option (Domain J)
  pub max_contacts : Option ℤ
  pub expires : Option ℤ
  pub credentials_ref : Option String
  pub credentials : Option (Credentials J)

pub record Peer (J : Type 0) : Type 0 where
  pub base : Base J
  pub username : Option String
  pub aor : Option String
  pub contact_addr : Option String
  pub enabled : Option Bool
  pub access_control_list_ref : Option String
  pub access_control_list : Option (AccessControlList J)
  pub credentials_ref : Option String
  pub credentials : Option (Credentials J)
  pub max_contacts : Option ℤ
  pub expires : Option ℤ
  pub balancing_algorithm : Option LoadBalancingAlgorithm
  pub with_session_affinity : Option Bool

-- x || null
abbrev pub or_null : Option String → Option String
or_null ref = if truthy ref then ref else none

-- x || 0
abbrev pub or_zero : Option ℤ → Option ℤ
or_zero n = some (get_or n (pos 0))

-- x?.ref
abbrev pub ref_of_rules : {J : Type 0} → Option (AccessControlList J) → Option String
ref_of_rules none = none
ref_of_rules (some rules) = rules.base.ref

abbrev pub ref_of_credentials : {J : Type 0} → Option (Credentials J) → Option String
ref_of_credentials none = none
ref_of_credentials (some c) = c.base.ref

abbrev pub normalize_algorithm : Option LoadBalancingAlgorithm → Option LoadBalancingAlgorithm
normalize_algorithm (some unspecified) = none
normalize_algorithm (some least_sessions) = some least_sessions
normalize_algorithm (some round_robin) = some round_robin
normalize_algorithm none = none

-- apiVersion: "v2", createdAt: undefined, updatedAt: undefined
abbrev pub base_to_prisma : {J : Type 0} → Base J → Base J
base_to_prisma b = record b { api_version = some v2; created_at = none; updated_at = none }

abbrev pub uri_to_dto : TrunkUri → TrunkUri
uri_to_dto uri = record uri { transport = to_upper uri.transport }

-- A row is read with its URIs.
abbrev pub uris_to_dto : Option (List TrunkUri) → Option (List TrunkUri)
uris_to_dto none = none
uris_to_dto (some uris) = some (map uri_to_dto uris)

module _ {J : Type 0} where
  abbrev pub acl_to_prisma : AccessControlList J → AccessControlList J
  acl_to_prisma acl = record acl { base = base_to_prisma acl.base }

  abbrev pub credentials_to_prisma : Credentials J → Credentials J
  credentials_to_prisma credentials = record credentials { base = base_to_prisma credentials.base }

  -- privacy ?? Privacy.NONE
  abbrev pub agent_to_prisma : Agent J → Agent J
  agent_to_prisma agent = record agent {
    base = base_to_prisma agent.base;
    privacy = some (get_or agent.privacy nothing);
    domain_ref = or_null agent.domain_ref;
    credentials_ref = or_null agent.credentials_ref;
    expires = or_zero agent.expires;
  }

  abbrev pub peer_to_prisma : Peer J → Peer J
  peer_to_prisma peer = record peer {
    base = base_to_prisma peer.base;
    balancing_algorithm = normalize_algorithm peer.balancing_algorithm;
    credentials_ref = or_null peer.credentials_ref;
    access_control_list_ref = or_null peer.access_control_list_ref;
    expires = or_zero peer.expires;
  }

  abbrev pub number_to_prisma : INumber J → INumber J
  number_to_prisma number = record number { base = base_to_prisma number.base }

  -- The URIs are given as `{ create: uris }`.
  abbrev pub trunk_to_prisma : Trunk J → Trunk J
  trunk_to_prisma trunk = record trunk {
    base = base_to_prisma trunk.base;
    access_control_list_ref = or_null trunk.access_control_list_ref;
    inbound_credentials_ref = or_null trunk.inbound_credentials_ref;
    outbound_credentials_ref = or_null trunk.outbound_credentials_ref;
  }

  -- A kind without relations is given back as it is.
  abbrev pub acl_to_dto : Option (AccessControlList J) → Option (AccessControlList J)
  acl_to_dto acl = acl

  abbrev pub credentials_to_dto : Option (Credentials J) → Option (Credentials J)
  credentials_to_dto credentials = credentials

  unfoldable pub trunk_to_dto : Option (Trunk J) → Option (Trunk J)
  unfolding to_upper
  trunk_to_dto none = none
  trunk_to_dto (some trunk) = some (record trunk {
    access_control_list_ref = ref_of_rules trunk.access_control_list;
    inbound_credentials_ref = ref_of_credentials trunk.inbound_credentials;
    outbound_credentials_ref = ref_of_credentials trunk.outbound_credentials;
    inbound_credentials = credentials_to_dto trunk.inbound_credentials;
    access_control_list = acl_to_dto trunk.access_control_list;
    outbound_credentials = credentials_to_dto trunk.outbound_credentials;
    uris = uris_to_dto trunk.uris;
  })

  unfoldable pub number_to_dto : Option (INumber J) → Option (INumber J)
  unfolding trunk_to_dto
  number_to_dto none = none
  number_to_dto (some number) = some (record number { trunk = trunk_to_dto number.trunk })

  -- mapToDtoWithoutTrunk: the row of a policy's number is read without its trunk.
  abbrev pub number_to_dto_without_trunk : Option (INumber J) → Option (INumber J)
  number_to_dto_without_trunk number = number

  unfoldable pub peer_to_dto : Option (Peer J) → Option (Peer J)
  peer_to_dto none = none
  peer_to_dto (some peer) = some (record peer {
    credentials = credentials_to_dto peer.credentials;
    access_control_list = acl_to_dto peer.access_control_list;
  })

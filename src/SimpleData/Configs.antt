-- ===== src/SimpleData/Configs.antt =====
-- The entries of the configuration files: mods/common/src/connect/config.ts. The common fields are
-- the reference, the version and the name of the metadata.
use routr.Prelude.{ℤ, String, Bool, List, Option}
use routr.Validations.Checks.{Header}

pub record ConfigBase : Type 0 where
  pub api_version : String
  pub ref : String
  pub name : String

-- spec.accessControlList may be missing.
pub record AccessRules : Type 0 where
  pub allow : Option (List String)
  pub deny : Option (List String)

pub record AccessControlListConfig : Type 0 where
  pub base : ConfigBase
  pub access_control_list : Option AccessRules

pub record CredentialsConfig : Type 0 where
  pub base : ConfigBase
  pub username : String
  pub password : String

pub record AgentConfig : Type 0 where
  pub base : ConfigBase
  pub username : String
  pub domain_ref : Option String
  pub credentials_ref : Option String
  pub privacy : Option String
  pub max_contacts : Option ℤ
  pub expires : Option ℤ
  pub enabled : Option Bool

pub record LoadBalancing : Type 0 where
  pub algorithm : Option String
  pub with_session_affinity : Option Bool

pub record PeerConfig : Type 0 where
  pub base : ConfigBase
  pub aor : String
  pub username : String
  pub credentials_ref : Option String
  pub contact_addr : Option String
  pub enabled : Option Bool
  pub max_contacts : Option ℤ
  pub expires : Option ℤ
  pub load_balancing : Option LoadBalancing

pub record EgressPolicyConfig : Type 0 where
  pub rule : String
  pub number_ref : Option String

pub record DomainConfig : Type 0 where
  pub base : ConfigBase
  pub access_control_list_ref : Option String
  pub domain_uri : String
  pub egress_policies : Option (List EgressPolicyConfig)

pub record GeoInfo : Type 0 where
  pub city : String
  pub country : String
  pub country_iso_code : String

pub record NumberConfig : Type 0 where
  pub base : ConfigBase
  pub geo_info : GeoInfo
  pub trunk_ref : Option String
  pub tel_url : String
  pub aor_link : String
  pub session_affinity_header : Option String
  pub extra_headers : Option (List Header)

pub record InboundConfig : Type 0 where
  pub uri : Option String
  pub access_control_list_ref : Option String
  pub credentials_ref : Option String

pub record UriConfig : Type 0 where
  pub user : Option String
  pub host : String
  pub port : Option ℤ
  pub transport : Option String
  pub priority : Option ℤ
  pub weight : Option ℤ
  pub enabled : Option Bool

pub record OutboundConfig : Type 0 where
  pub send_register : Option Bool
  pub credentials_ref : Option String
  pub uris : Option (List UriConfig)

pub record TrunkConfig : Type 0 where
  pub base : ConfigBase
  pub inbound : Option InboundConfig
  pub outbound : Option OutboundConfig

-- `kind` chooses the constructor; `unknown` is a kind that has no loader.
pub data UserConfig : Type 0 where
  acl : AccessControlListConfig → UserConfig
  credentials : CredentialsConfig → UserConfig
  agent : AgentConfig → UserConfig
  peer : PeerConfig → UserConfig
  domain : DomainConfig → UserConfig
  number : NumberConfig → UserConfig
  trunk : TrunkConfig → UserConfig
  unknown : ConfigBase → UserConfig

abbrev pub base_of : UserConfig → ConfigBase
base_of (acl c) = c.base
base_of (credentials c) = c.base
base_of (agent c) = c.base
base_of (peer c) = c.base
base_of (domain c) = c.base
base_of (number c) = c.base
base_of (trunk c) = c.base
base_of (unknown c) = c

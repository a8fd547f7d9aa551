-- ===== src/SimpleData/Resources.antt =====
-- The resources that are made of the configuration: mods/common/src/connect/types.ts. A link holds
-- whatever resource has the reference; its kind is not checked.
use routr.Prelude.{ℤ, String, Bool, List, Option}
use routr.Validations.Checks.{Header}

pub record Base : Type 0 where
  pub api_version : String
  pub ref : String
  pub name : String
  pub created_at : ℤ
  pub updated_at : ℤ

pub record AccessControlList : Type 0 where
  pub allow : List String
  pub deny : List String

pub record Credentials : Type 0 where
  pub username : String
  pub password : String

pub record Agent : Type 0 where
  pub username : String
  pub privacy : String
  pub enabled : Option Bool
  pub domain_ref : Option String
  pub credentials_ref : Option String
  pub max_contacts : Option ℤ
  pub expires : Option ℤ

pub record Peer : Type 0 where
  pub username : String
  pub aor : String
  pub contact_addr : Option String
  pub enabled : Option Bool
  pub credentials_ref : Option String
  pub balancing_algorithm : Option String
  pub with_session_affinity : Option Bool
  pub max_contacts : Option ℤ
  pub expires : Option ℤ

pub record Domain : Type 0 where
  pub domain_uri : String
  pub access_control_list_ref : Option String

pub record INumber : Type 0 where
  pub city : String
  pub country : String
  pub country_iso_code : String
  pub tel_url : String
  pub aor_link : String
  pub session_affinity_header : Option String
  pub extra_headers : Option (List Header)
  pub trunk_ref : Option String

pub record TrunkUri : Type 0 where
  pub user : Option String
  pub host : String
  pub port : Option ℤ
  pub transport : Option String
  pub enabled : Option Bool
  pub weight : Option ℤ
  pub priority : Option ℤ

pub record Trunk : Type 0 where
  pub send_register : Option Bool
  pub inbound_uri : Option String
  pub inbound_credentials_ref : Option String
  pub outbound_credentials_ref : Option String
  pub access_control_list_ref : Option String
  pub uris : Option (List TrunkUri)

mutual
  pub data Resource : Type 0 where
    acl : Base → AccessControlList → Resource
    credentials : Base → Credentials → Resource
    agent : Base → Agent → (domain credentials : Link) → Resource
    peer : Base → Peer → (credentials : Link) → Resource
    domain : Base → Domain → (egress_policies : Policies) → (access_control_list : Link) → Resource
    number : Base → INumber → (trunk : Link) → Resource
    trunk :
        Base
        → Trunk
        → (inbound_credentials outbound_credentials access_control_list : Link) → Resource

  pub data Link : Type 0 where
    null : Link
    to : Resource → Link

  -- `undefined`, or a list of the rule, the reference and the number of each policy.
  pub data Policies : Type 0 where
    no_policies : Policies
    end : Policies
    policy : String → Option String → Link → Policies → Policies

abbrev pub base_of : Resource → Base
base_of (acl b _) = b
base_of (credentials b _) = b
base_of (agent b _ _ _) = b
base_of (peer b _ _) = b
base_of (domain b _ _ _) = b
base_of (number b _ _) = b
base_of (trunk b _ _ _ _) = b

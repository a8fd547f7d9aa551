-- ===== src/Sip/Connect.antt =====
-- The resources of the Connect API: mods/common/src/connect/types.ts.
use routr.Prelude.{ℤ, String, Bool, List, Option}
use routr.Sip.Enums.{LoadBalancingAlgorithm, Transport}
use routr.Sip.Message.{Parameters}

pub record AccessControlList : Type 0 where
  pub ref : String
  pub allow : List String
  pub deny : List String

pub record Credentials : Type 0 where
  pub username : String
  pub password : String

pub record TrunkUri : Type 0 where
  pub host : String
  pub port : Option ℤ
  pub transport : Option Transport
  pub user : Option String

pub record Trunk : Type 0 where
  pub ref : String
  pub inbound_uri : String
  pub access_control_list : Option AccessControlList
  pub inbound_credentials : Option Credentials
  pub outbound_credentials : Option Credentials
  pub uris : Option (List TrunkUri)

pub record INumber : Type 0 where
  pub ref : String
  pub tel_url : String
  pub aor_link : String
  pub session_affinity_header : Option String
  pub extra_headers : Option (List (String × String))
  pub trunk : Option Trunk
  pub extended : Option Parameters

pub record EgressPolicy : Type 0 where
  pub rule : String
  pub number : Option INumber

pub record Domain : Type 0 where
  pub ref : String
  pub domain_uri : String
  pub egress_policies : Option (List EgressPolicy)

pub record Agent : Type 0 where
  pub ref : String
  pub name : String
  pub username : String
  pub privacy : Option String
  pub domain : Option Domain
  pub max_contacts : Option ℤ
  pub credentials : Option Credentials
  pub extended : Option Parameters

pub record Peer : Type 0 where
  pub ref : String
  pub username : String
  pub aor : String
  pub credentials : Option Credentials
  pub max_contacts : Option ℤ
  pub balancing_algorithm : Option LoadBalancingAlgorithm
  pub with_session_affinity : Option Bool
  pub extended : Option Parameters

pub data RoutableResourceUnion : Type 0 where
  agent : Agent → RoutableResourceUnion
  peer : Peer → RoutableResourceUnion
  number : INumber → RoutableResourceUnion

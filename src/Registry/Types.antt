-- ===== src/Registry/Types.antt =====
-- mods/registry/src/types.ts, and the packages that the registry calls.
use routr.Prelude.{ℤ, pos, String, Bool, List, Option}
use routr.Sip.{Method, Transport, SipMessage}

abbrev pub default_max_forwards : ℤ
default_max_forwards = pos 70

abbrev pub default_expires : ℤ
default_expires = pos 600

pub data RegistrationEntryStatus : Type 0 where
  registered quarantine : RegistrationEntryStatus

pub record RegistrationEntry : Type 0 where
  pub trunk_ref : String
  -- in milliseconds
  pub time_of_entry : ℤ
  pub retention_time_in_seconds : ℤ
  pub status : RegistrationEntryStatus

pub record EdgePort : Type 0 where
  pub address : String
  pub region : String

-- What the service reads of its configuration.
pub record RegistryConfig : Type 0 where
  pub edge_ports : List EdgePort
  pub register_interval : Option ℤ
  pub methods : Option (List Method)

pub record Auth : Type 0 where
  pub username : Option String
  pub secret : Option String

-- The service always gives `auth`.
pub record RequestParams : Type 0 where
  pub user : Option String
  pub trunk_ref : String
  pub target_domain : String
  pub target_address : String
  pub proxy_address : String
  pub transport : Option Transport
  pub user_agent : Option String
  pub methods : Option (List Method)
  pub max_forwards : Option ℤ
  pub expires : Option ℤ
  pub secure : Option Bool
  pub auth : Auth

pub record RegistrationRequest : Type 0 where
  pub trunk_ref : String
  pub target : String
  pub user : Option String
  pub method : Method
  pub transport : Option Transport
  pub message : SipMessage

pub record SendMessageResponse : Type 0 where
  pub trunk_ref : String
  pub message : SipMessage

-- Buffer.from(s).toString("base64"), and the
-- identifiers of the package uniqid.
pub record Packages : Type 0 where
  pub base64 : String → String
  pub uniqid : String
  pub uniqid_time : String

-- ===== src/Sip/Request.antt =====
-- What the services hand to each other: requests, routes and header modifiers, of
-- mods/common/src/types.ts.
use routr.Prelude.{ℤ, String, List, Option}
use routr.Sip.Enums.{Method, HeaderModifierAction, Transport}
use routr.Sip.Message.{NetInterface, Parameters, SipMessage}

pub record MessageRequest : Type 0 where
  pub ref : String
  pub edge_port_ref : String
  pub method : Method
  pub sender : NetInterface
  pub listening_points : List NetInterface
  pub external_addrs : List String
  pub localnets : List String
  pub message : SipMessage
  pub metadata : Option Parameters

pub record HeaderModifier : Type 0 where
  pub name : String
  pub value : Option String
  pub action : HeaderModifierAction

pub record Route : Type 0 where
  pub user : Option String
  pub host : String
  pub port : Option ℤ
  pub advertised_host : String
  pub advertised_port : Option ℤ
  pub transport : Option Transport
  pub registered_on : Option ℤ
  pub session_count : Option ℤ
  pub expires : Option ℤ
  pub edge_port_ref : String
  pub listening_points : List NetInterface
  pub localnets : List String
  pub external_addrs : List String
  pub labels : Option Parameters
  pub headers : Option (List HeaderModifier)
  pub metadata : Option Parameters

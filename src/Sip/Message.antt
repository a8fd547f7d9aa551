-- ===== src/Sip/Message.antt =====
-- The headers and the body of a SIP message: mods/common/src/types.ts. A property with `?` is an
-- `Option`; so is one that the program leaves out of an object it builds.
use routr.Prelude.{ℕ, ℤ, String, Bool, List, Option}
use routr.Sip.Enums.{MessageType, ResponseType, Transport}

abbrev pub Parameters : Type 0
Parameters = List (String × String)

pub record NetInterface : Type 0 where
  pub host : String
  pub port : ℤ
  pub transport : Transport

pub record Extension : Type 0 where
  pub name : String
  pub value : Option String

pub record Via : Type 0 where
  pub host : String
  pub port : Option ℤ
  pub branch : Option String
  pub transport : Transport
  pub received : Option String
  pub r_port_flag : Option Bool
  pub r_port : Option ℤ

pub record SipUri : Type 0 where
  pub user : Option String
  pub host : String
  pub port : Option ℤ
  pub transport_param : Option Transport
  pub lr_param : Option Bool
  pub method_param : Option String
  pub secure : Option Bool

pub record Address : Type 0 where
  pub uri : SipUri
  pub display_name : Option String

pub record MaxForwards : Type 0 where
  pub max_forwards : ℤ

pub record RouteHeader : Type 0 where
  pub address : Address
  pub parameters : Option Parameters

-- RecordRoute has the same properties.
abbrev pub RecordRoute : Type 0
RecordRoute = RouteHeader

pub record From : Type 0 where
  pub address : Address
  pub tag : String

pub record To : Type 0 where
  pub address : Address
  pub tag : Option String

pub record Contact : Type 0 where
  pub address : Address
  pub expires : Option ℤ

pub record Expires : Type 0 where
  pub expires : Option ℤ

pub record WwwAuthenticate : Type 0 where
  pub scheme : String
  pub realm : String
  pub qop : String
  pub opaque : String
  pub stale : Bool
  pub nonce : String
  pub algorithm : String

pub record Authorization : Type 0 where
  pub realm : String
  pub scheme : String
  pub nonce : String
  pub c_nonce : String
  pub nonce_count : ℕ
  pub response : String
  pub username : String
  pub uri : String
  pub algorithm : String
  pub qop : String
  pub opaque : String

pub record SipMessage : Type 0 where
  pub message_type : MessageType
  pub response_type : Option ResponseType
  pub request_uri : Option SipUri
  pub from : From
  pub to : To
  pub contact : Option Contact
  pub call_id : String
  pub expires : Option Expires
  pub max_forwards : Option MaxForwards
  pub authorization : Option Authorization
  pub extensions : List Extension
  pub via : List Via
  pub route : List RouteHeader
  pub record_route : List RecordRoute
  pub body : Option String

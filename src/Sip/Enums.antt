-- ===== src/Sip/Enums.antt =====
-- The enumerations of mods/common/src/types.ts. Those that the program takes from the wire as text
-- and case-maps (transports, header names) stay texts; the others are data.
use routr.Prelude.{String, Bool, true, false, ◌==◌, string_eq}

pub data Method : Type 0 where
  unknown register invite message publish notify subscribe : Method
  ack bye cancel options info refer update prack : Method

abbrev pub method_value : Method → String
method_value unknown = "UNKNOWN"
method_value register = "REGISTER"
method_value invite = "INVITE"
method_value message = "MESSAGE"
method_value publish = "PUBLISH"
method_value notify = "NOTIFY"
method_value subscribe = "SUBSCRIBE"
method_value ack = "ACK"
method_value bye = "BYE"
method_value cancel = "CANCEL"
method_value options = "OPTIONS"
method_value info = "INFO"
method_value refer = "REFER"
method_value update = "UPDATE"
method_value prack = "PRACK"

-- `===` on an enumeration compares the values.
abbrev pub same_method : Method → Method → Bool
same_method a b = method_value a == method_value b

abbrev pub Transport : Type 0
Transport = String

abbrev pub udp : Transport
udp = "UDP"

abbrev pub ws : Transport
ws = "WS"

abbrev pub wss : Transport
wss = "WSS"

pub data LoadBalancingAlgorithm : Type 0 where
  unspecified round_robin least_sessions : LoadBalancingAlgorithm

-- Privacy
abbrev pub privacy_none : String
privacy_none = "NONE"

abbrev pub privacy_private : String
privacy_private = "ID"

abbrev pub anonymous : String
anonymous = "anonymous"

pub data HeaderModifierAction : Type 0 where
  add remove : HeaderModifierAction

abbrev pub is_add : HeaderModifierAction → Bool
is_add add = true
is_add remove = false

abbrev pub is_remove : HeaderModifierAction → Bool
is_remove add = false
is_remove remove = true

pub data MessageType : Type 0 where
  request response : MessageType

pub data ResponseType : Type 0 where
  unknown trying ringing call_is_being_forwarded queued session_progress success : ResponseType
  ok accepted redirection multiple_choices moved_permanently : ResponseType
  moved_temporarily use_proxy alternative_service client_error bad_request : ResponseType
  unauthorized payment_required forbidden not_found method_not_allowed : ResponseType
  not_acceptable proxy_authentication_required request_timeout gone : ResponseType
  request_entity_too_large request_uri_too_long unsupported_media_type : ResponseType
  unsupported_uri_scheme bad_extension extension_required interval_too_brief : ResponseType
  temporarily_unavailable call_or_transaction_does_not_exist loop_detected : ResponseType
  too_many_hops address_incomplete ambiguous busy_here request_terminated : ResponseType
  not_acceptable_here bad_event request_pending undecipherable server_error : ResponseType
  server_internal_error not_implemented bad_gateway service_unavailable : ResponseType
  server_timeout version_not_supported message_too_large global_error : ResponseType
  busy_everywhere decline does_not_exist_anywhere session_not_acceptable : ResponseType

abbrev pub is_ok_type : ResponseType → Bool
is_ok_type ok = true
is_ok_type _ = false

abbrev pub is_ringing_type : ResponseType → Bool
is_ringing_type ringing = true
is_ringing_type _ = false

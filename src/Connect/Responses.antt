-- ===== src/Connect/Responses.antt =====
-- What a processor sends back: the responses of mods/common/src/response.ts and those of
-- mods/processor/src/response.ts.
use routr.Prelude.{String, false, List, Option, none, some, or_else}
use routr.Sip.{MessageRequest, Contact, WwwAuthenticate}
use routr.Sip

pub record Reply : Type 0 where
  pub response_type : Sip.ResponseType
  pub reason_phrase : Option String
  pub www_authenticate : Option WwwAuthenticate
  pub extensions : Option (List (String × String))
  pub contact : Option Contact

-- `buildResponse`
abbrev pub build_response :
    Sip.ResponseType → Option String → Option (List (String × String)) → Reply
build_response code reason_phrase extra_headers = record {
  response_type = code;
  reason_phrase = reason_phrase;
  www_authenticate = none;
  extensions = extra_headers;
  contact = none;
}

-- What is handed to the callback of a request, once.
pub data Sent : Type 0 where
  forwarded : MessageRequest → Sent
  replied : Reply → Sent

-- createUnauthorizedResponse(realm), with the default parameters
abbrev pub unauthorized_response : String → String → Reply
unauthorized_response nonce realm = record {
  response_type = Sip.ResponseType.unauthorized;
  reason_phrase = some "Unauthorized";
  www_authenticate = some (record {
    scheme = "Digest";
    realm = realm;
    qop = "auth";
    opaque = "";
    stale = false;
    nonce = nonce;
    algorithm = "MD5";
  });
  extensions = none;
  contact = none;
}

abbrev pub unauthorized_response_without_challenge : Reply
unauthorized_response_without_challenge =
    build_response Sip.ResponseType.unauthorized (some "Unauthorized") none

abbrev pub server_internal_error_response : Reply
server_internal_error_response =
    build_response Sip.ResponseType.server_internal_error (some "Server Internal Error") none

abbrev pub forbidden_response : Reply
forbidden_response = build_response Sip.ResponseType.forbidden (some "Forbidden") none

-- The methods of `Response`.
abbrev pub send_ok : Option (List (String × String)) → Sent
send_ok extra_headers = replied (build_response Sip.ResponseType.ok (some "OK") extra_headers)

abbrev pub send_register_ok : MessageRequest → Option (List (String × String)) → Sent
send_register_ok req extra_headers =
    replied (record (build_response Sip.ResponseType.ok none extra_headers) {
      contact = req.message.contact;
    })

abbrev pub send_method_not_allowed : Sent
send_method_not_allowed =
    replied (build_response Sip.ResponseType.method_not_allowed (some "Method Not Allowed") none)

abbrev pub send_not_found : Sent
send_not_found = replied (build_response Sip.ResponseType.not_found (some "Not Found") none)

abbrev pub send_temporarily_unavailable : Sent
send_temporarily_unavailable =
    replied (
      build_response Sip.ResponseType.temporarily_unavailable (some "Temporarily Unavailable") none)

abbrev pub send_internal_server_error : Sent
send_internal_server_error =
    replied
      (build_response Sip.ResponseType.server_internal_error (some "Internal Server Error") none)

abbrev pub send_forbidden : Option String → Sent
send_forbidden message =
    replied (build_response Sip.ResponseType.forbidden (some (or_else message "Forbidden")) none)

-- ===== src/Registry/Request.antt =====
-- mods/registry/src/request.ts. The counter of CSeq is the state.
use routr.Prelude.{
  show_number, parse_int, ℕ, ◌+◌, ℤ, pos, negsuc, String, true, List, [], ◌∷◌, ◌++◌, map, Option,
  none, some, Result, ok, err, error, ◌==◌, nat_eq, get_elem?, get_or, length, split, template,
  shown, if◌then◌else◌,
}
use routr.Prelude.Exec.{Exec, ◌>>=◌, lift, pure}
use routr.Sip.{
  Method, method_value, Extension, SipUri, From, To, RouteHeader, Transport, SipMessage,
}
use routr.Sip
use routr.Sip.ExtraHeader
use routr.Registry.Types.{
  RequestParams, RegistrationRequest, Packages, Auth, default_expires, default_max_forwards,
}

-- The text is an ordinary string, with the braces in it.
abbrev pub malformed_address : Result String
malformed_address = err (error "malformated address; must be ${host}:${port}")

abbrev pub part_of_address : ℕ → String → Result String
part_of_address n address =
    if length (split b':' address) == 2
    then ok (get_or (get_elem? (split b':' address) n) "")
    else malformed_address

unfoldable pub get_host_from_address : String → Result String
unfolding split
get_host_from_address address = part_of_address 0 address

-- `parseInt` does not throw: a port that is no number is NaN.
unfoldable pub get_port_from_address : Packages → String → Result (Option ℤ)
unfolding split
get_port_from_address p address = elim (part_of_address 1 address) [
  | ok port ↦ ok (parse_int port)
  | err reason ↦ err reason
]

abbrev extension : String → String → Extension
extension name value = record { name = name; value = some value }

abbrev allow : Method → Extension
allow method = extension "Allow" (method_value method)

abbrev pub credentials : Packages → Auth → Extension
credentials p auth =
    extension ExtraHeader.gateway_auth
      (p.base64 (template (shown auth.username ∷ ":" ∷ shown auth.secret ∷ [])))

-- `${cseq++} REGISTER`
abbrev pub cseq_header : Packages → ℕ → Extension
cseq_header p cseq =
    extension "CSeq"
      (template (show_number (some (pos cseq)) ∷ " " ∷ method_value Method.register ∷ []))

abbrev pub extensions : Packages → RequestParams → ℕ → List Extension
extensions p params cseq =
    map allow (get_or params.methods [])
    ++ cseq_header p cseq
      ∷ extension "User-Agent" (get_or params.user_agent "Routr Connect v2")
      ∷ extension "Allow-Events" "presence"
      ∷ extension "Proxy-Require" "gin"
      ∷ extension "Require" "gin"
      ∷ extension "Supported" "path"
      ∷ credentials p params.auth
      ∷ []

abbrev own_uri : RequestParams → SipUri
own_uri params = record {
  user = params.user;
  host = params.target_domain;
  port = some (negsuc 0);
  transport_param = params.transport;
  lr_param = none;
  method_param = none;
  secure = params.secure;
}

abbrev proxy_route : RequestParams → String → Option ℤ → RouteHeader
proxy_route params host port = record {
  address = record {
    uri = record {
      user = none;
      host = host;
      port = port;
      transport_param = params.transport;
      lr_param = some true;
      method_param = none;
      secure = none;
    };
    display_name = none;
  };
  parameters = none;
}

abbrev target_uri : RequestParams → String → Option ℤ → SipUri
target_uri params host port = record {
  user = params.user;
  host = host;
  port = port;
  transport_param = params.transport;
  lr_param = none;
  method_param = some (method_value Method.register);
  secure = params.secure;
}

abbrev message : Packages → RequestParams → ℕ → RouteHeader → SipUri → SipMessage
message p params cseq route uri = record {
  message_type = Sip.MessageType.request;
  response_type = none;
  request_uri = some uri;
  from = record {
    address = record { uri = own_uri params; display_name = none };
    tag = p.uniqid_time;
  };
  to = record { address = record { uri = own_uri params; display_name = none }; tag = none };
  contact = none;
  call_id = p.uniqid;
  expires = some (record { expires = some (get_or params.expires default_expires) });
  max_forwards = some (record { max_forwards = get_or params.max_forwards default_max_forwards });
  authorization = none;
  extensions = extensions p params cseq;
  via = [];
  route = route ∷ [];
  record_route = [];
  body = none;
}

abbrev pub next_cseq : Exec ℕ ℕ
next_cseq cseq = (ok cseq, cseq + 1)

unfoldable pub create_registration_request : Packages → RequestParams → Exec ℕ RegistrationRequest
unfolding get_host_from_address get_port_from_address
create_registration_request p params = do
  cseq ← next_cseq
  proxy_host ← lift (get_host_from_address params.proxy_address)
  proxy_port ← lift (get_port_from_address p params.proxy_address)
  target_host ← lift (get_host_from_address params.target_address)
  target_port ← lift (get_port_from_address p params.target_address)
  pure (record {
    trunk_ref = params.trunk_ref;
    target = params.target_address;
    user = params.user;
    method = Method.register;
    transport = params.transport;
    message =
        message p params cseq (proxy_route params proxy_host proxy_port)
          (target_uri params target_host target_port);
  })

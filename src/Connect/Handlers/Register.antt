-- ===== src/Connect/Handlers/Register.antt =====
-- mods/connect/src/handlers/register.ts and mods/connect/src/handlers/registry.ts
pub mod Entitled
pub mod Reached
use routr.Prelude.{
  ℤ, negsuc, pos, String, Option, none, some, Error, type_error, error, status, invalid_argument,
  defined, ◌==◌, string_eq, int_eq, any, if◌then◌else◌,
}
use routr.Prelude.Exec.{Exec, pure, lift, attempt, ◌>>=◌, ◌>>◌}
use routr.Sip.{
  MessageRequest, Method, Route, HeaderModifier, add, Parameters, same_method, Authorization,
}
use routr.Sip
use routr.Sip.Connect.{RoutableResourceUnion, agent, peer, number}
use routr.Processor.Target.{get_target_aor}
use routr.Processor.Alterations.{
  add_self_via, decrease_max_forwards, remove_authorization, remove_self_routes,
  remove_x_edge_port_ref,
}
use routr.Location.Helper.{create_route, create_route_from_last_message}
use routr.Connect.Types.{ApiClient, LocationClient, Packages, VerifyResponse}
use routr.Connect.Responses.{
  Sent, forwarded, replied, unauthorized_response, forbidden_response, send_register_ok,
  send_internal_server_error, send_forbidden,
}
use routr.Connect.Utils.{find_resource, has_x_connect_object_header}
use routr.Connect.Access.{answers, credentials_of, host_asked}
use routr.Connect.Handlers.{Settings}

module _ {S : Type 0} (e : Settings) (api : ApiClient) (location : LocationClient S) where
  abbrev p : Packages
  p = e.packages

  abbrev aor_of : RoutableResourceUnion → MessageRequest → String
  aor_of (peer found) req = found.aor
  aor_of (agent _) req = get_target_aor req
  aor_of (number _) req = get_target_aor req

  abbrev max_contacts_of : RoutableResourceUnion → Option ℤ
  max_contacts_of (peer found) = found.max_contacts
  max_contacts_of (agent found) = found.max_contacts
  max_contacts_of (number _) = none

  -- location.addRoute({ aor, route: H.createRoute(request), maxContacts }), then sendRegisterOk
  unfoldable pub register_route : MessageRequest → String → Option ℤ → Exec S Sent
  unfolding create_route
  register_route req aor max_contacts = do
    route ← lift (create_route p.now req)
    location.add_route (record { aor = aor; route = route; max_contacts = max_contacts })
    pure (send_register_ok req none)

  abbrev pub registration_failed : Error → Exec S Sent
  registration_failed (status invalid_argument details) = pure (send_forbidden (some details))
  registration_failed (status _ _) = pure send_internal_server_error
  registration_failed type_error = pure send_internal_server_error
  registration_failed (error _) = pure send_internal_server_error

  -- createUnauthorizedResponse(request.message.requestUri.host)
  abbrev pub unauthorized : MessageRequest → Exec S Sent
  unauthorized req = do
    host ← lift (host_asked req)
    pure (replied (unauthorized_response p.nonce host))

  unfoldable pub register_with_credentials : MessageRequest → Authorization → Exec S Sent
  unfolding find_resource register_route
  register_with_credentials req auth =
      let from_uri = req.message.from.address.uri in
      elim (find_resource api from_uri.host from_uri.user) [
        | none ↦ pure (replied forbidden_response)
        | some found ↦ lift (credentials_of (some found)) >>= λ credentials.
            if answers p req auth credentials
            then attempt (register_route req (aor_of found req) (max_contacts_of found))
                registration_failed
            else unauthorized req
      ]

  -- payload.maxContacts || -1
  abbrev token_contacts : VerifyResponse → ℤ
  token_contacts payload = if payload.max_contacts == pos 0 then negsuc 0 else payload.max_contacts

  -- The body of the `try`; without a verifier it throws.
  unfoldable pub register_with_token : MessageRequest → String → Exec S Sent
  unfolding register_route
  register_with_token req token = do
    verify ← lift (defined p.verify)
    payload ← lift (verify token)
    if any (λ m. same_method m Sip.Method.register) payload.allowed_methods
        then register_route req payload.aor (some (token_contacts payload))
        else pure (replied forbidden_response)

  unfoldable pub handle_register : MessageRequest → Exec S Sent
  unfolding register_with_credentials register_with_token
  handle_register req = elim req.message.authorization [
    | some auth ↦ register_with_credentials req auth
    | none ↦ elim (has_x_connect_object_header req) [
      | some token ↦
          attempt (register_with_token req token) (λ _. pure (replied forbidden_response))
      | none ↦ unauthorized req
    ]
  ]

  -- handlers/registry.ts
  unfoldable pub handle_registry : MessageRequest → Exec S Sent
  unfolding create_route_from_last_message add_self_via decrease_max_forwards remove_authorization
      remove_self_routes remove_x_edge_port_ref
  handle_registry req = do
    route ← lift (create_route_from_last_message p.now req)
    stacked ← lift (add_self_via e.ip route req)
    stripped ← lift (remove_self_routes (remove_authorization (decrease_max_forwards stacked)))
    pure (forwarded (remove_x_edge_port_ref stripped))

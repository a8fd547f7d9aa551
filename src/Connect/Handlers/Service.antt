-- ===== src/Connect/Handlers/Service.antt =====
-- mods/connect/src/service.ts: the listener.
use routr.Prelude.{none, some, string_eq, int_eq, if◌then◌else◌}
use routr.Prelude.Exec.{Exec, pure, lift, ◌>>=◌}
use routr.Sip.{
  MessageRequest, Method, Route, HeaderModifier, add, Parameters, same_method, Authorization,
}
use routr.Sip
use routr.Sip.ExtraHeader
use routr.Processor.Helper.{is_type_response}
use routr.Processor.Extensions.{get_header_value}
use routr.Processor.Alterations.{
  add_self_via_using_external_addrs, decrease_max_forwards, remove_self_routes, remove_top_via,
}
use routr.Connect.Types.{ApiClient, LocationClient}
use routr.Connect.Responses.{Sent, forwarded, send_method_not_allowed}
use routr.Connect.Handlers.{Settings}
use routr.Connect.Handlers.Register.{handle_registry, handle_register}
use routr.Connect.Handlers.Request.{handle_request}

module _ {S : Type 0} (e : Settings) (api : ApiClient) (location : LocationClient S) where
  -- For a response and by the method of a request.
  abbrev in_dialog : MessageRequest → Exec S Sent
  in_dialog req = do
    stacked ← lift (add_self_via_using_external_addrs e.ip (decrease_max_forwards req))
    out ← lift (remove_self_routes stacked)
    pure (forwarded out)

  unfoldable pub by_method : Method → MessageRequest → Exec S Sent
  unfolding handle_registry handle_register handle_request
  by_method Sip.Method.publish req = pure send_method_not_allowed
  by_method Sip.Method.notify req = pure send_method_not_allowed
  by_method Sip.Method.subscribe req = pure send_method_not_allowed
  by_method Sip.Method.message req = pure send_method_not_allowed
  by_method Sip.Method.register req = elim (get_header_value req ExtraHeader.gateway_auth) [
    | some _ ↦ handle_registry e api location req
    | none ↦ handle_register e api location req
  ]
  by_method Sip.Method.bye req = in_dialog req
  by_method Sip.Method.ack req = in_dialog req
  by_method _ req = handle_request e api location req

  unfoldable pub connect_processor : MessageRequest → Exec S Sent
  unfolding by_method remove_top_via
  connect_processor req =
      if is_type_response req
      then pure (forwarded (remove_top_via req))
      else by_method req.method req

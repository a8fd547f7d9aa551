-- ===== src/Connect/Handlers/Request.antt =====
-- mods/connect/src/handlers/request.ts
pub mod Answers
use routr.Prelude.{
  ℤ, negsuc, pos, String, Bool, true, false, not, ◌&&◌, List, [], ◌∷◌, ◌++◌, Option, none, some,
  Error, Result, ok, err, type_error, error, status, GrpcStatus, not_found, invalid_argument,
  defined, ◌==◌, string_eq, int_eq, any, get_or, if◌then◌else◌,
}
use routr.Prelude.Exec.{Exec, pure, throw, lift, attempt, ◌>>=◌, ◌>>◌}
use routr.Sip.{
  MessageRequest, Method, Route, HeaderModifier, add, Parameters, same_method, Authorization,
}
use routr.Sip
use routr.Sip.ExtraHeader
use routr.Sip.Connect.{RoutableResourceUnion, agent, peer, number}
use routr.Common.IpUtils.{IpLib}
use routr.Processor.Helper.{is_type_response}
use routr.Processor.Extensions.{get_header_value}
use routr.Processor.Target.{get_target_aor}
use routr.Processor.Alterations.{
  add_self_via, add_self_via_using_external_addrs, add_self_record_route,
  add_route_to_peer_edge_port, add_route_to_next_hop, add_x_edge_port_ref, decrease_max_forwards,
  remove_authorization, remove_self_routes, remove_x_edge_port_ref, remove_top_via, enforce_e164,
}
use routr.Location.Helper.{create_route, create_route_from_last_message}
use routr.Location.Types.{AddRouteRequest}
use routr.Connect.Types.{
  ApiClient, LocationClient, Packages, RoutingDirection, VerifyResponse, direction_value,
}
use routr.Connect.Types
use routr.Connect.Responses.{
  Reply, Sent, forwarded, replied, unauthorized_response, forbidden_response, send_register_ok,
  send_method_not_allowed, send_not_found, send_temporarily_unavailable, send_internal_server_error,
  send_forbidden,
}
use routr.Connect.Utils.{find_resource, has_x_connect_object_header}
use routr.Connect.Access.{answers, challenge, credentials_of, host_asked}
use routr.Connect.Tailor.{tailor}
use routr.Connect.Router.{RouterResult, routed, refused, router}
use routr.Connect.Handlers.{Settings}
use routr.Connect.Handlers.Forward.{forward}

module _ {S : Type 0} (e : Settings) (api : ApiClient) (location : LocationClient S) where
  abbrev p : Packages
  p = e.packages

  -- The modifier X-Call-Direction goes last.
  abbrev with_direction : RoutingDirection → Route → Route
  with_direction direction route = record route {
    headers = some (
        get_or route.headers []
        ++ record {
          name = ExtraHeader.call_direction;
          value = some (direction_value direction);
          action = add;
        }
          ∷ []);
  }

  -- What is sent for a call that the router gave no route.
  abbrev unrouted : RoutingDirection → Sent
  unrouted Types.agent_to_pstn = send_not_found
  unrouted _ = send_temporarily_unavailable

  abbrev send_request : Route → MessageRequest → Exec S Sent
  send_request route req = do out ← lift (forward e.ip route req); pure (forwarded out)

  abbrev send_routed : MessageRequest → RouterResult → Exec S Sent
  send_routed req (refused reply) = pure (replied reply)
  send_routed req (routed direction none) = pure (unrouted direction)
  send_routed req (routed direction (some route)) =
      send_request (with_direction direction route) req

  -- By the reference of the edge port that the request has gone through, if it has one.
  abbrev dispatch_for : Option String → MessageRequest → Exec S Sent
  dispatch_for (some _) req =
      lift (create_route_from_last_message p.now req) >>= λ route. send_request route req
  dispatch_for none req = router p e.ip api location req >>= λ found. send_routed req found

  -- The body of the `try`, after the normalisation of the numbers.
  unfoldable pub dispatch_request : MessageRequest → Exec S Sent
  unfolding router forward create_route_from_last_message get_header_value
  dispatch_request req = dispatch_for (get_header_value req ExtraHeader.edgeport_ref) req

  abbrev pub request_failed : Error → Exec S Sent
  request_failed (status not_found _) = pure send_temporarily_unavailable
  request_failed (status _ _) = pure send_internal_server_error
  request_failed type_error = pure send_internal_server_error
  request_failed (error _) = pure send_internal_server_error

  unfoldable pub handle_request : MessageRequest → Exec S Sent
  unfolding dispatch_request enforce_e164
  handle_request request =
      attempt
        (lift (enforce_e164 e.phone e.enforces_e164 e.enforces_mobile_prefix request) >>= λ req.
          dispatch_request req)
        request_failed

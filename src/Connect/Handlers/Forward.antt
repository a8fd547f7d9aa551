-- ===== src/Connect/Handlers/Forward.antt =====
-- The end of mods/connect/src/handlers/request.ts: the request that is sent for a route.
use routr.Prelude.{Option, Result, ok, ◌>>=◌, ◌==◌, string_eq, int_eq, if◌then◌else◌}
use routr.Sip.{MessageRequest, Route, Parameters}
use routr.Common.IpUtils.{IpLib}
use routr.Processor.Alterations.{
  add_self_via, add_self_record_route, add_route_to_peer_edge_port, add_route_to_next_hop,
  add_x_edge_port_ref, decrease_max_forwards,
}
use routr.Connect.Tailor.{tailor}

module _ (ip : IpLib) where
  -- Forward to the edge port of the route's endpoint.
  unfoldable pub to_peer_edge_port : Route → MessageRequest → Result MessageRequest
  unfolding add_self_via add_self_record_route add_route_to_peer_edge_port add_route_to_next_hop
      add_x_edge_port_ref decrease_max_forwards
  to_peer_edge_port route req = add_self_via ip route req >>= λ stacked.
      add_self_record_route ip route stacked >>= λ recorded.
      add_route_to_peer_edge_port ip route recorded >>= λ routed_to_peer.
      add_route_to_next_hop route routed_to_peer >>= λ aimed.
      ok (decrease_max_forwards (add_x_edge_port_ref aimed))

  abbrev with_metadata : MessageRequest → Option Parameters → MessageRequest
  with_metadata req metadata = record req { metadata = metadata }

  unfoldable pub forward : Route → MessageRequest → Result MessageRequest
  unfolding to_peer_edge_port tailor
  forward route req =
      if req.edge_port_ref == route.edge_port_ref
      then tailor ip route (with_metadata req route.metadata)
      else to_peer_edge_port route req

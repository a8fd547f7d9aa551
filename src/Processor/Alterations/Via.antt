-- ===== src/Processor/Alterations/Via.antt =====
-- The alterations that push to and pop from the Via headers, and the one on Max-Forwards.
use routr.Prelude.{
  String, true, List, [], ◌∷◌, Option, none, some, Result, ok, defined, ◌>>=◌, ◌==◌, string_eq,
  tail, or_else, if◌then◌else◌, to_upper,
}
use routr.Prelude.Int.{pos, ◌-ℤ◌}
use routr.Sip.{MessageRequest, Route, Via, NetInterface, RouteHeader, MaxForwards, udp}
use routr.Common.IpUtils.{IpLib}
use routr.Processor.Helper.{Nets, get_edge_interface}

abbrev pub with_via : MessageRequest → List Via → MessageRequest
with_via req via = record req { message = record req.message { via = via } }

-- `{ ...targetIntf, rPortFlag: true }`
abbrev pub self_via : NetInterface → Via
self_via intf = record {
  host = intf.host;
  port = some intf.port;
  branch = none;
  transport = intf.transport;
  received = none;
  r_port_flag = some true;
  r_port = none;
}

-- `{ ...routingObjects, endpointIntf: route }`: the objects are the route's if the route ends at
-- this edge port, else the request's.
abbrev pub self_via_nets : Route → MessageRequest → Nets
self_via_nets route req =
    if req.edge_port_ref == route.edge_port_ref
    then record {
      listening_points = route.listening_points;
      endpoint_host = route.host;
      endpoint_transport = route.transport;
      localnets = route.localnets;
      external_addrs = route.external_addrs;
    }
    else record {
      listening_points = req.listening_points;
      endpoint_host = route.host;
      endpoint_transport = route.transport;
      localnets = req.localnets;
      external_addrs = req.external_addrs;
    }

module _ (ip : IpLib) where
  unfoldable pub add_self_via : Route → MessageRequest → Result MessageRequest
  add_self_via route req = do
    target_intf ← get_edge_interface ip (self_via_nets route req)
    ok (with_via req (self_via target_intf ∷ req.message.via))

  unfoldable pub add_self_via_using_external_addrs : MessageRequest → Result MessageRequest
  add_self_via_using_external_addrs req = do
    request_uri ← defined req.message.request_uri
    target_intf ← get_edge_interface ip (record {
      listening_points = req.listening_points;
      endpoint_host = request_uri.host;
      endpoint_transport = request_uri.transport_param;
      localnets = req.localnets;
      external_addrs = req.external_addrs;
    })
    ok (with_via req (self_via target_intf ∷ req.message.via))

-- `(transportParam?.toUpperCase()) || Transport.UDP`
unfoldable pub upper_or_udp : Option String → String
unfolding to_upper
upper_or_udp none = udp
upper_or_udp (some t) = or_else (some (to_upper t)) udp

abbrev route_via : RouteHeader → Via
route_via r = record {
  host = r.address.uri.host;
  port = r.address.uri.port;
  branch = none;
  transport = upper_or_udp r.address.uri.transport_param;
  received = none;
  r_port_flag = some true;
  r_port = none;
}

-- The second Route header if there are several, else the only one.
unfoldable pub add_self_via_using_the_route_headers : MessageRequest → MessageRequest
unfolding upper_or_udp
add_self_via_using_the_route_headers req = elim req.message.route [
  | [] ↦ req
  | r ∷ rest ↦ elim rest [
    | [] ↦ with_via req (route_via r ∷ req.message.via)
    | r2 ∷ _ ↦ with_via req (route_via r2 ∷ req.message.via)
  ]
]

unfoldable pub remove_top_via : MessageRequest → MessageRequest
remove_top_via req = with_via req (tail req.message.via)

abbrev pub one_less : Option MaxForwards → Option MaxForwards
one_less none = none
one_less (some m) = some (record { max_forwards = m.max_forwards -ℤ pos 1 })

unfoldable pub decrease_max_forwards : MessageRequest → MessageRequest
unfolding ◌-ℤ◌
decrease_max_forwards req = record req {
  message = record req.message { max_forwards = one_less req.message.max_forwards };
}

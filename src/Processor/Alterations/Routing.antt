-- ===== src/Processor/Alterations/Routing.antt =====
-- The alterations on the request URI, the Route headers and the Record-Route headers.
use routr.Prelude.{
  ℤ, String, Bool, true, not, ◌&&◌, ◌||◌, List, [], ◌∷◌, map, Option, none, some, Result, ok,
  defined, ◌>>=◌, ◌==◌, string_eq, int_eq, option_eq, any, head?, get_or, filter_r, if◌then◌else◌,
  split,
}
use routr.Sip.{MessageRequest, Route, NetInterface, RouteHeader, RecordRoute, SipUri, Parameters}
use routr.Common.IpUtils.{IpLib}
use routr.Common.Helper.{get_listening_point}
use routr.Processor.Helper.{Nets, get_edge_interface}
use routr.Processor.Alterations.Via.{upper_or_udp}

abbrev pub with_request_uri : MessageRequest → SipUri → MessageRequest
with_request_uri req uri = record req { message = record req.message { request_uri = some uri } }

abbrev pub with_route : MessageRequest → List RouteHeader → MessageRequest
with_route req route = record req { message = record req.message { route = route } }

abbrev pub with_record_route : MessageRequest → List RecordRoute → MessageRequest
with_record_route req rr = record req { message = record req.message { record_route = rr } }

unfoldable pub fix_request_uri : Route → MessageRequest → Result MessageRequest
fix_request_uri route req = do
  uri ← defined req.message.request_uri
  ok (
      with_request_uri req
        (record uri { host = route.host; port = route.port; transport_param = route.transport }))

-- `{ address: { uri: { host, port, transportParam, lrParam: true } } }`
abbrev pub loose_route : String → Option ℤ → Option String → Option Parameters → RouteHeader
loose_route host port transport parameters = record {
  address = record {
    uri = record {
      user = none;
      host = host;
      port = port;
      transport_param = transport;
      lr_param = some true;
      method_param = none;
      secure = none;
    };
    display_name = none;
  };
  parameters = parameters;
}

abbrev pub intf_route : NetInterface → Option Parameters → RouteHeader
intf_route intf parameters = loose_route intf.host (some intf.port) (some intf.transport) parameters

unfoldable pub add_route_to_next_hop : Route → MessageRequest → Result MessageRequest
add_route_to_next_hop route req = do
  uri ← defined req.message.request_uri
  if uri.host == route.host
      then ok req
      else ok (
          with_route req
            (loose_route route.host route.port route.transport none ∷ req.message.route))

-- `{ r2: "on" }`
abbrev pub r2_on : Option Parameters
r2_on = some (("r2", "on") ∷ [])

-- The test on the two interfaces of `addSelfRecordRoute`.
unfoldable pub same_interface : NetInterface → NetInterface → Bool
same_interface a b = a.host == b.host && a.port == b.port && a.transport == b.transport

module _ (ip : IpLib) where
  unfoldable pub add_route_to_peer_edge_port : Route → MessageRequest → Result MessageRequest
  add_route_to_peer_edge_port route req = do
    target_intf ← get_edge_interface ip (record {
      listening_points = route.listening_points;
      endpoint_host = route.host;
      endpoint_transport = route.transport;
      localnets = route.localnets;
      external_addrs = route.external_addrs;
    })
    ok (with_route req (intf_route target_intf none ∷ req.message.route))

  abbrev request_nets : MessageRequest → String → Option String → Nets
  request_nets req host transport = record {
    listening_points = req.listening_points;
    endpoint_host = host;
    endpoint_transport = transport;
    localnets = req.localnets;
    external_addrs = req.external_addrs;
  }

  unfoldable pub origin_interface : MessageRequest → Result NetInterface
  origin_interface req =
      get_edge_interface ip (request_nets req req.sender.host (some req.sender.transport))

  unfoldable pub target_interface : Route → MessageRequest → Result NetInterface
  target_interface route req =
      get_edge_interface ip (request_nets req route.advertised_host route.transport)

  unfoldable pub add_self_record_route : Route → MessageRequest → Result MessageRequest
  unfolding same_interface
  add_self_record_route route req = do
    origin_intf ← origin_interface req
    target_intf ← target_interface route req
    if same_interface origin_intf target_intf
        then ok (with_record_route req (intf_route origin_intf none ∷ req.message.record_route))
        else ok (
            with_record_route req (
              intf_route target_intf r2_on
              ∷ intf_route origin_intf r2_on
              ∷ req.message.record_route))

-- localnets.map((ln) => ln.split("/")[0])
unfoldable pub local_ips : List String → List String
unfolding split
local_ips localnets = map (λ ln. get_or (head? (split b'/' ln)) "") localnets

-- Whether a Route header names this server: a local or an external address with the port that it
-- listens to on the header's transport.
unfoldable pub is_self_route : MessageRequest → RouteHeader → Result Bool
unfolding local_ips upper_or_udp
is_self_route req r = do
  lp ← get_listening_point req.listening_points (some (upper_or_udp r.address.uri.transport_param))
  ok (
      (any (λ ip. ip == r.address.uri.host) (local_ips req.localnets)
        || any (λ ip. ip == r.address.uri.host) req.external_addrs)
      && r.address.uri.port == some lp.port)

abbrev pub not_self : MessageRequest → RouteHeader → Result Bool
not_self req r = do self ← is_self_route req r; ok (not self)

unfoldable pub remove_self_routes : MessageRequest → Result MessageRequest
unfolding filter_r
remove_self_routes req = do
  kept ← filter_r (not_self req) req.message.route
  ok (with_route req kept)

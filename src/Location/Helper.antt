-- ===== src/Location/Helper.antt =====
-- mods/location/src/helper.ts: the route of an endpoint, from its request. The time is an argument.
use routr.Prelude.{
  parse_int, ℤ, negsuc, Option, none, some, Result, ok, defined, ◌>>=◌, ◌==◌, option_eq, int_eq,
  head?, or_else, to_upper, if◌then◌else◌,
}
use routr.Sip.{MessageRequest, Route, SipUri, Via}
use routr.Sip.ExtraHeader
use routr.Processor.Extensions.{get_header_value}
use routr.Processor.Target.{get_target_expires}

module _ (now : ℤ) where
  abbrev session_count : MessageRequest → Option ℤ
  session_count req = elim (get_header_value req ExtraHeader.session_count) [
    | none ↦ some (negsuc 0)
    | some text ↦ parse_int text
  ]

  unfoldable pub build_route : MessageRequest → SipUri → Result Route
  unfolding get_header_value get_target_expires to_upper
  build_route req uri = do
    via ← defined (head? req.message.via)
    ok (record {
      user = uri.user;
      host = uri.host;
      port = uri.port;
      advertised_host = via.host;
      advertised_port = via.port;
      transport = elim uri.transport_param [ none ↦ none | some t ↦ some (to_upper t) ];
      registered_on = some now;
      session_count = session_count req;
      expires = some (get_target_expires req);
      edge_port_ref = req.edge_port_ref;
      listening_points = req.listening_points;
      localnets = req.localnets;
      external_addrs = req.external_addrs;
      labels = none;
      headers = none;
      metadata = none;
    })

  -- The address that the request came from, as its top Via saw it.
  abbrev source_uri : MessageRequest → Via → SipUri
  source_uri req via = record {
    user = req.message.from.address.uri.user;
    host = or_else via.received via.host;
    port = if via.r_port == some (negsuc 0) then via.port else via.r_port;
    transport_param = some (to_upper via.transport);
    lr_param = none;
    method_param = none;
    secure = none;
  }

  unfoldable pub create_route : MessageRequest → Result Route
  unfolding build_route
  create_route req = do via ← defined (head? req.message.via); build_route req (source_uri req via)

  unfoldable pub create_route_from_last_message : MessageRequest → Result Route
  unfolding build_route
  create_route_from_last_message req = do uri ← defined req.message.request_uri; build_route req uri

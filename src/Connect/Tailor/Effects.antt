-- ===== src/Connect/Tailor/Effects.antt =====
-- What a request looks like when it leaves the proxy.
use routr.Prelude.{
  ◌≡◌, Option, none, some, ok, arith, >>=-eq-ok, ok-injective, ◌∷◌, List, sym, refl, filter, holds,
  defined, string_eq,
}
use routr.Sip.{MessageRequest, Route, SipUri, RecordRoute, NetInterface, Contact}
use routr.Common.IpUtils.{IpLib}
use routr.Processor.Helper.{get_edge_interface}
use routr.Processor.Alterations.{
  decrease_max_forwards, remove_authorization, remove_self_routes, remove_x_edge_port_ref,
  fix_invalid_contact, fix_request_uri, add_self_via, apply_x_headers, add_self_record_route,
  add_route_to_next_hop, one_less, self_via, self_via_nets, origin_interface, target_interface,
  with_contact, with_request_uri, with_via, with_record_route, not_self, is_self_route,
}
use routr.Processor.SelfRoutes.{remove_self_routes-eq-filter}
use routr.Processor.HeaderRewrite.{remove_x_edge_port_ref_lem}
use routr.Connect.Tailor.{tailor}

-- The request URI names the route.
pub record IsAimed (route : Route) (uri : SipUri) : Type 0 where
  pub host : uri.host ≡ route.host
  pub port : uri.port ≡ route.port
  pub transport_param : uri.transport_param ≡ route.transport

-- The steps that may throw: what each one changes, when it does not throw.
module _ (req out : MessageRequest) where
  fix_invalid_contact-changes :
      fix_invalid_contact req ≡ ok out → (c : Option Contact) × (out ≡ with_contact req c)
  unfolding fix_invalid_contact
  fix_invalid_contact-changes h = (out.message.contact, ground arith)

  module _ (route : Route) where
    fix_request_uri-changes :
        fix_request_uri route req ≡ ok out
        → (uri : SipUri) × IsAimed route uri × (out ≡ with_request_uri req uri)
    unfolding fix_request_uri
    fix_request_uri-changes h =
        let (uri, found, h') = >>=-eq-ok (defined req.message.request_uri) _ h in
        (_, record { host = refl; port = refl; transport_param = refl }, sym (ok-injective h'))

    add_route_to_next_hop-changes :
        (uri : SipUri)
        → req.message.request_uri ≡ some uri
        → IsAimed route uri
        → add_route_to_next_hop route req ≡ ok out
        → out ≡ req
    unfolding add_route_to_next_hop
    add_route_to_next_hop-changes uri found aimed h =
        ground (arith, string_eq.same_iff uri.host route.host)

    module _ (ip : IpLib) where
      add_self_via-changes :
          add_self_via ip route req ≡ ok out
          → (intf : NetInterface) × (get_edge_interface ip (self_via_nets route req) ≡ ok intf)
            × (out ≡ with_via req (self_via intf ∷ req.message.via))
      unfolding add_self_via
      add_self_via-changes h =
          let (intf, found, h') = >>=-eq-ok (get_edge_interface ip (self_via_nets route req)) _ h in
          (intf, found, sym (ok-injective h'))

      add_self_record_route-changes :
          add_self_record_route ip route req ≡ ok out
          → (rr : List RecordRoute) × (out ≡ with_record_route req rr)
      unfolding add_self_record_route
      add_self_record_route-changes h =
          let (origin, _, h') = >>=-eq-ok (origin_interface ip req) _ h in
          let (target, _, h'') = >>=-eq-ok (target_interface ip route req) _ h' in
          (out.message.record_route, ground arith)

-- The request that `tailor` returns, against the one that it is given.
pub record IsTailored (ip : IpLib) (route : Route) (req out : MessageRequest) : Type 0 where
  pub authorization : out.message.authorization ≡ none
  pub max_forwards : out.message.max_forwards ≡ one_less req.message.max_forwards
  pub uri : SipUri
  pub request_uri : out.message.request_uri ≡ some uri
  pub aimed : IsAimed route uri
  pub intf : NetInterface
  pub egress : get_edge_interface ip (self_via_nets route req) ≡ ok intf
  pub via : out.message.via ≡ self_via intf ∷ req.message.via
  pub route_headers : out.message.route ≡ filter (λ r. holds (not_self req r)) req.message.route
  pub extensions : out.message.extensions ≡ (apply_x_headers route req).message.extensions
  pub from : out.message.from ≡ req.message.from
  pub to : out.message.to ≡ req.message.to
  pub call_id : out.message.call_id ≡ req.message.call_id
  pub body : out.message.body ≡ req.message.body

-- If `tailor` does not throw: credentials are off, Max-Forwards is one less, the request URI is the
-- route's, one Via (that of the egress interface) is on top, the Route headers are those that do not
-- name this server with none added, the extensions are rewritten by the route's modifiers only, and
-- From, To, Call-ID and the body are as they were.
pub tailor_lem :
    (ip : IpLib) (route : Route) (req out : MessageRequest)
    → tailor ip route req ≡ ok out
    → IsTailored ip route req out
unfolding tailor decrease_max_forwards remove_authorization apply_x_headers is_self_route
tailor_lem ip route req out h =
    let (stripped, e1, h1) =
      >>=-eq-ok (remove_self_routes (remove_authorization (decrease_max_forwards req))) _ h in
    let (contacted, e2, h2) =
      >>=-eq-ok (fix_invalid_contact (remove_x_edge_port_ref stripped)) _ h1 in
    let (aimed, e3, h3) = >>=-eq-ok (fix_request_uri route contacted) _ h2 in
    let (stacked, e4, h4) = >>=-eq-ok (add_self_via ip route aimed) _ h3 in
    let (recorded, e5, h5) =
      >>=-eq-ok (add_self_record_route ip route (apply_x_headers route stacked)) _ h4 in
    let kept =
      remove_self_routes-eq-filter (remove_authorization (decrease_max_forwards req)) stripped e1 in
    let plain = remove_x_edge_port_ref_lem stripped in
    let (c, fixed) = fix_invalid_contact-changes (remove_x_edge_port_ref stripped) contacted e2 in
    let (uri, target, aimed') = fix_request_uri-changes contacted aimed route e3 in
    let (intf, found, stacked') = add_self_via-changes aimed stacked route ip e4 in
    let (rr, recorded') =
      add_self_record_route-changes (apply_x_headers route stacked) recorded route ip e5 in
    let last = add_route_to_next_hop-changes recorded out route uri (ground arith) target h5 in
    record {
      authorization = ground arith;
      max_forwards = ground arith;
      uri = uri;
      request_uri = ground arith;
      aimed = target;
      intf = intf;
      egress = ground arith;
      via = ground arith;
      route_headers = ground arith;
      extensions = ground arith;
      from = ground arith;
      to = ground arith;
      call_id = ground arith;
      body = ground arith;
    }

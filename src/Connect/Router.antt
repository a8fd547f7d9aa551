-- ===== src/Connect/Router.antt =====
-- mods/connect/src/router.ts
pub mod Admission
pub mod Pstn
pub mod Resolve
use routr.Prelude.{
  String, Bool, true, false, not, ◌&&◌, List, [], ◌∷◌, ◌++◌, map, Option, none, some, Error, Result,
  ok, err, type_error, status, unimplemented, defined, head?, get_or, template, if◌then◌else◌,
}
use routr.Prelude.Exec.{Exec, pure, throw, lift, ◌>>=◌}
use routr.Sip.{MessageRequest, Method, invite, Route, HeaderModifier, add, Parameters, same_method}
use routr.Sip.Connect.{Agent, Peer, INumber, RoutableResourceUnion, agent, peer, number}
use routr.Common.IpUtils.{IpLib}
use routr.Processor.Extensions.{get_optional_header}
use routr.Processor.Target.{get_target_aor}
use routr.Location.Types.{Backend}
use routr.Connect.Types.{ApiClient, LocationClient, Packages, RoutingDirection, direction_value}
use routr.Connect.Types
use routr.Connect.Responses.{Reply}
use routr.Connect.Utils.{get_routing_direction, is_token_call}
use routr.Connect.Access.{check_access}
use routr.Connect.Router.Pstn.{agent_to_pstn, peer_to_pstn}
use routr.Connect.Router.Resolve.{Parties, parties, turned_away, resolve}

-- A direction, perhaps with a route, or the response that refuses the call.
pub data RouterResult : Type 0 where
  routed : RoutingDirection → Option Route → RouterResult
  refused : Reply → RouterResult

abbrev pub unsupported_routing : RoutingDirection → Error
unsupported_routing direction =
    status unimplemented
      (template ("unsupported routing direction: " ∷ direction_value direction ∷ []))

abbrev pub extended_of : Option RoutableResourceUnion → Option Parameters
extended_of none = none
extended_of (some (agent a)) = a.extended
extended_of (some (peer p)) = p.extended
extended_of (some (number n)) = n.extended

-- `result(direction, route, extended)`
abbrev pub result : RoutingDirection → Option Route → Option Parameters → RouterResult
result direction none extended = routed direction none
result direction (some route) extended =
    routed direction (some (record route { metadata = extended }))

abbrev added : String × String → HeaderModifier
added (name, value) = record { name = name; value = some value; action = add }

-- `callee.extraHeaders?.forEach((prop) => route.headers.push(p))`
abbrev with_extra_headers : INumber → Route → Route
with_extra_headers callee route = record route {
  headers = some (get_or route.headers [] ++ map added (get_or callee.extra_headers []));
}

abbrev pub peer_backend : Peer → Backend
peer_backend p = record {
  ref = none;
  balancing_algorithm = p.balancing_algorithm;
  with_session_affinity = p.with_session_affinity;
}

module _ {S : Type 0} (p : Packages) (ip : IpLib) (api : ApiClient)
    (location : LocationClient S) where
  unfoldable pub agent_to_agent : MessageRequest → Exec S (Option Route)
  agent_to_agent req = do
    routes ← location.find_routes (record {
      aor = get_target_aor req;
      call_id = req.ref;
      session_affinity_ref = none;
      backend = none;
      labels = none;
    })
    pure (head? routes)

  unfoldable pub agent_to_peer : Peer → MessageRequest → Exec S (Option Route)
  agent_to_peer callee req = do
    routes ← location.find_routes (record {
      aor = callee.aor;
      call_id = req.ref;
      session_affinity_ref = none;
      backend = some (peer_backend callee);
      labels = none;
    })
    pure (head? routes)

  unfoldable pub from_pstn : INumber → MessageRequest → Exec S (Option Route)
  from_pstn callee req = do
    peers ← lift (api.peers_by_aor callee.aor_link)
    routes ← location.find_routes (record {
      aor = callee.aor_link;
      call_id = req.ref;
      session_affinity_ref = get_optional_header req callee.session_affinity_header;
      backend = elim (head? peers) [ none ↦ none | some found ↦ some (peer_backend found) ];
      labels = none;
    })
    pure (elim (head? routes) [ none ↦ none | some route ↦ some (with_extra_headers callee route) ])

  -- The `switch`. The casts of the caller and of the callee are those that the direction allows;
  -- for other resources, which it rules out, the result is a TypeError.
  unfoldable pub route_call : MessageRequest → Parties → RoutingDirection → Exec S RouterResult
  unfolding agent_to_agent agent_to_peer from_pstn
  route_call req (caller, callee) Types.agent_to_agent = do
    route ← agent_to_agent req
    pure (result Types.agent_to_agent route (extended_of caller))
  route_call req (caller, some (peer to)) Types.agent_to_peer = do
    route ← agent_to_peer to req
    pure (result Types.agent_to_peer route (extended_of caller))
  route_call req (caller, _) Types.agent_to_peer = throw type_error
  route_call req (some (agent a), callee) Types.agent_to_pstn = do
    route ← lift (agent_to_pstn p req a)
    pure (result Types.agent_to_pstn (some route) a.extended)
  route_call req (_, callee) Types.agent_to_pstn = throw type_error
  route_call req (caller, some (number n)) Types.from_pstn = do
    route ← from_pstn n req
    pure (result Types.from_pstn route n.extended)
  route_call req (caller, _) Types.from_pstn = throw type_error
  route_call req (caller, callee) Types.peer_to_pstn = do
    route ← lift (peer_to_pstn p api req)
    pure (result Types.peer_to_pstn (some route) (extended_of callee))
  route_call req who Types.peer_to_agent = throw (unsupported_routing Types.peer_to_agent)
  route_call req who Types.unknown = throw (unsupported_routing Types.unknown)

  -- Who passes: a call with a token, which `resolve` has verified, and every method but INVITE.
  unfoldable pub admission : MessageRequest → Parties → RoutingDirection → Result (Option Reply)
  unfolding check_access
  admission req (caller, callee) direction =
      if not (is_token_call req) && same_method req.method invite
      then check_access p ip api req caller callee direction
      else ok none

  unfoldable pub router : MessageRequest → Exec S RouterResult
  unfolding resolve admission route_call get_routing_direction
  router req = lift (resolve p api req) >>= λ found. elim found [
    | turned_away reply ↦ pure (refused reply)
    | parties who ↦ lift (defined req.message.request_uri) >>= λ _.
        lift (admission req who (get_routing_direction who.0 who.1)) >>= λ failed_check.
        elim failed_check [
          | some reply ↦ pure (refused reply)
          | none ↦ route_call req who (get_routing_direction who.0 who.1)
        ]
  ]

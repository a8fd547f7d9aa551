-- ===== src/Connect/Router/Admission.antt =====
-- Which calls the router routes.
use routr.Prelude.{
  true, false, arith, ◌≡◌, Option, none, some, ok, ap, ok-injective, defined, sym, subst,
}
use routr.Prelude.Exec.{Exec, pure, lift, ◌>>=◌, continue-eq-ok}
use routr.Sip.{MessageRequest, Route, Parameters, invite, same_method}
use routr.Common.IpUtils.{IpLib}
use routr.Connect.Types.{ApiClient, LocationClient, Packages, RoutingDirection}
use routr.Connect.Types
use routr.Sip.Connect.{agent, peer, number}
use routr.Connect.Responses.{Reply}
use routr.Connect.Utils.{get_routing_direction, is_token_call}
use routr.Connect.Access.{check_access}
use routr.Connect.Router.Resolve.{Parties, Resolved, parties, turned_away, resolve}
use routr.Connect.Router.{
  RouterResult, routed, refused, admission, route_call, router, agent_to_agent, agent_to_peer,
  from_pstn, result,
}
use routr.Connect.Router.Pstn.{agent_to_pstn, peer_to_pstn}

abbrev direction_in : RoutingDirection → RouterResult → RoutingDirection
direction_in d (routed d' _) = d'
direction_in d (refused _) = d

direction_injective :
    {d d' : RoutingDirection} {r r' : Option Route} → routed d r ≡ routed d' r' → d ≡ d'
direction_injective {d} h = ap (direction_in d) h

module _ {S : Type 0} (p : Packages) (ip : IpLib) (api : ApiClient) (location : LocationClient S)
    (req : MessageRequest) where
  -- The caller and the callee that the call was routed for.
  pub record IsRouted (direction : RoutingDirection) : Type 0 where
    pub who : Parties
    pub found : resolve p api req ≡ ok (parties who)
    pub direction_of : direction ≡ get_routing_direction who.0 who.1
    pub let_in : admission p ip api location req who direction ≡ ok none

  -- They passed the check on who may call.
  pub record IsAdmitted (direction : RoutingDirection) : Type 0 where
    pub who : Parties
    pub found : resolve p api req ≡ ok (parties who)
    pub direction_of : direction ≡ get_routing_direction who.0 who.1
    pub passed : check_access p ip api req who.0 who.1 direction ≡ ok none

  result_direction :
      (d d' : RoutingDirection) (route r' : Option Route) (extended : Option Parameters)
      → result d route extended ≡ routed d' r'
      → d ≡ d'
  result_direction d d' none r' extended h = direction_injective h
  result_direction d d' (some route) r' extended h = direction_injective h

  route_call_direction :
      (who : Parties) (d d' : RoutingDirection) (route : Option Route) (s : S)
      → (route_call p ip api location req who d s).0 ≡ ok (routed d' route)
      → d ≡ d'
  unfolding route_call
  route_call_direction (caller, callee) Types.agent_to_agent d' route s h =
      let (r, _, h') =
        continue-eq-ok (agent_to_agent p ip api location req s).0 _
          (agent_to_agent p ip api location req s).1 h in
      result_direction _ d' r route _ (ok-injective h')
  route_call_direction (caller, some (peer to)) Types.agent_to_peer d' route s h =
      let (r, _, h') =
        continue-eq-ok (agent_to_peer p ip api location to req s).0 _
          (agent_to_peer p ip api location to req s).1 h in
      result_direction _ d' r route _ (ok-injective h')
  route_call_direction (caller, none) Types.agent_to_peer d' route s h = cc
  route_call_direction (caller, some (agent a)) Types.agent_to_peer d' route s h = cc
  route_call_direction (caller, some (number n)) Types.agent_to_peer d' route s h = cc
  route_call_direction (some (agent a), callee) Types.agent_to_pstn d' route s h =
      let (r, _, h') =
        continue-eq-ok (lift (agent_to_pstn p req a) s).0 _ (lift (agent_to_pstn p req a) s).1 h in
      result_direction _ d' (some r) route _ (ok-injective h')
  route_call_direction (none, callee) Types.agent_to_pstn d' route s h = cc
  route_call_direction (some (peer f), callee) Types.agent_to_pstn d' route s h = cc
  route_call_direction (some (number n), callee) Types.agent_to_pstn d' route s h = cc
  route_call_direction (caller, some (number n)) Types.from_pstn d' route s h =
      let (r, _, h') =
        continue-eq-ok (from_pstn p ip api location n req s).0 _
          (from_pstn p ip api location n req s).1 h in
      result_direction _ d' r route _ (ok-injective h')
  route_call_direction (caller, none) Types.from_pstn d' route s h = cc
  route_call_direction (caller, some (agent a)) Types.from_pstn d' route s h = cc
  route_call_direction (caller, some (peer f)) Types.from_pstn d' route s h = cc
  route_call_direction (caller, callee) Types.peer_to_pstn d' route s h =
      let (r, _, h') =
        continue-eq-ok (lift (peer_to_pstn p api req) s).0 _ (lift (peer_to_pstn p api req) s).1
          h in
      result_direction _ d' (some r) route _ (ok-injective h')
  route_call_direction who Types.peer_to_agent d' route s h = cc
  route_call_direction who Types.unknown d' route s h = cc

  admitted :
      (who : Parties) (d : RoutingDirection) (check : Option Reply) (route : Option Route) (s : S)
      → resolve p api req ≡ ok (parties who)
      → admission p ip api location req who (get_routing_direction who.0 who.1) ≡ ok check
      → ((elim check as (λ _. Exec S RouterResult) [
        | some reply ↦ pure (refused reply)
        | none ↦ route_call p ip api location req who (get_routing_direction who.0 who.1)
      ])
          s).0
        ≡ ok (routed d route)
      → IsRouted d
  admitted who d (some reply) route s found checked h = cc
  admitted who d none route s found checked h =
      let same = route_call_direction who (get_routing_direction who.0 who.1) d route s h in
      record {
        who = who;
        found = found;
        direction_of = sym same;
        let_in = subst (λ x. admission p ip api location req who x ≡ ok none) same checked;
      }

  resolved_admitted :
      (r : Resolved) (d : RoutingDirection) (route : Option Route) (s : S)
      → resolve p api req ≡ ok r
      → ((elim r as (λ _. Exec S RouterResult) [
        | turned_away reply ↦ pure (refused reply)
        | parties who ↦ lift (defined req.message.request_uri) >>= λ _.
            lift (admission p ip api location req who (get_routing_direction who.0 who.1))
            >>= λ failed_check. elim failed_check as (λ _. Exec S RouterResult) [
              | some reply ↦ pure (refused reply)
              | none ↦ route_call p ip api location req who (get_routing_direction who.0 who.1)
            ]
      ])
          s).0
        ≡ ok (routed d route)
      → IsRouted d
  resolved_admitted (turned_away reply) d route s found h = cc
  resolved_admitted (parties who) d route s found h =
      let (uri, _, h1) = continue-eq-ok (defined req.message.request_uri) _ s h in
      let (check, checked, h2) =
        continue-eq-ok (admission p ip api location req who (get_routing_direction who.0 who.1)) _ s
          h1 in
      admitted who d check route s found checked h2

  router-IsRouted :
      (direction : RoutingDirection) (route : Option Route) (s : S)
      → (router p ip api location req s).0 ≡ ok (routed direction route)
      → IsRouted direction
  unfolding router
  router-IsRouted direction route s h =
      let (r, found, h') = continue-eq-ok (resolve p api req) _ s h in
      resolved_admitted r direction route s found h'

  -- An INVITE without a token that the router routes was resolved to a caller and a callee, has
  -- their direction, and `checkAccess` let these two pass in that direction.
  pub router-IsAdmitted :
      (direction : RoutingDirection) (route : Option Route) (s : S)
      → is_token_call req ≡ false
      → same_method req.method invite ≡ true
      → (router p ip api location req s).0 ≡ ok (routed direction route)
      → IsAdmitted direction
  unfolding admission
  router-IsAdmitted direction route s plain called h =
      let found = router-IsRouted direction route s h in
      record {
        who = found.who;
        found = found.found;
        direction_of = found.direction_of;
        passed = ground (arith, found.let_in);
      }

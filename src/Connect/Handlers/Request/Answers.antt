-- ===== src/Connect/Handlers/Request/Answers.antt =====
-- What `handleRequest` sends.
use routr.Prelude.{
  String, ◌≡◌, ◌⊎◌, ◌≢◌, inl, inr, refl, Option, none, some, Result, ok, err, Error, type_error,
  error, status, not_found, sym, subst, Option-cases, Result-cases,
}
use routr.Prelude
use routr.Prelude.Exec.{recover, continue}
use routr.Sip.{MessageRequest, Route}
use routr.Sip.ExtraHeader
use routr.Processor.Extensions.{get_header_value}
use routr.Processor.Alterations.{enforce_e164}
use routr.Location.Helper.{create_route_from_last_message}
use routr.Connect.Types.{ApiClient, LocationClient, RoutingDirection}
use routr.Connect.Types
use routr.Connect.Responses.{
  Reply, Sent, forwarded, replied, send_not_found, send_temporarily_unavailable,
  send_internal_server_error,
}
use routr.Connect.Router.{RouterResult, routed, refused, router}
use routr.Connect.Handlers.{Settings}
use routr.Connect.Handlers.Forward.{forward}
use routr.Connect.Handlers.Request.{
  handle_request, dispatch_for, dispatch_request, request_failed, with_direction, send_request,
  send_routed, unrouted,
}

module _ {S : Type 0} (e : Settings) (api : ApiClient) (location : LocationClient S) where
  -- The route to which a request is forwarded.
  pub data IsRouted (req : MessageRequest) (s : S) : Route → Type 0 where
    by_edge_port :
        (ref : String) (route : Route)
        → get_header_value req ExtraHeader.edgeport_ref ≡ some ref
        → create_route_from_last_message e.packages.now req ≡ ok route
        → IsRouted req s route
    by_router :
        (direction : RoutingDirection) (route : Route)
        → get_header_value req ExtraHeader.edgeport_ref ≡ none
        → (router e.packages e.ip api location req s).0 ≡ ok (routed direction (some route))
        → IsRouted req s (with_direction e api location direction route)

  -- What was thrown, and by which part.
  pub data Throws (request : MessageRequest) (s : S) (reason : Error) : Type 0 where
    numbers :
        enforce_e164 e.phone e.enforces_e164 e.enforces_mobile_prefix request ≡ err reason
        → Throws request s reason
    last_message :
        (req : MessageRequest) (ref : String)
        → enforce_e164 e.phone e.enforces_e164 e.enforces_mobile_prefix request ≡ ok req
        → get_header_value req ExtraHeader.edgeport_ref ≡ some ref
        → create_route_from_last_message e.packages.now req ≡ err reason
        → Throws request s reason
    routing :
        (req : MessageRequest)
        → enforce_e164 e.phone e.enforces_e164 e.enforces_mobile_prefix request ≡ ok req
        → get_header_value req ExtraHeader.edgeport_ref ≡ none
        → (router e.packages e.ip api location req s).0 ≡ err reason
        → Throws request s reason
    forwarding :
        (req : MessageRequest) (route : Route)
        → enforce_e164 e.phone e.enforces_e164 e.enforces_mobile_prefix request ≡ ok req
        → IsRouted req s route
        → forward e.ip route req ≡ err reason
        → Throws request s reason

  -- What is sent, by what became of the request.
  pub data IsSentFor (request : MessageRequest) (s : S) : Sent → Type 0 where
    forwards :
        (req out : MessageRequest) (route : Route)
        → enforce_e164 e.phone e.enforces_e164 e.enforces_mobile_prefix request ≡ ok req
        → IsRouted req s route
        → forward e.ip route req ≡ ok out
        → IsSentFor request s (forwarded out)
    refuses :
        (req : MessageRequest) (reply : Reply)
        → enforce_e164 e.phone e.enforces_e164 e.enforces_mobile_prefix request ≡ ok req
        → get_header_value req ExtraHeader.edgeport_ref ≡ none
        → (router e.packages e.ip api location req s).0 ≡ ok (refused reply)
        → IsSentFor request s (replied reply)
    no_trunk :
        (req : MessageRequest)
        → enforce_e164 e.phone e.enforces_e164 e.enforces_mobile_prefix request ≡ ok req
        → get_header_value req ExtraHeader.edgeport_ref ≡ none
        → (router e.packages e.ip api location req s).0 ≡ ok (routed Types.agent_to_pstn none)
        → IsSentFor request s send_not_found
    no_route :
        (req : MessageRequest) (direction : RoutingDirection)
        → enforce_e164 e.phone e.enforces_e164 e.enforces_mobile_prefix request ≡ ok req
        → get_header_value req ExtraHeader.edgeport_ref ≡ none
        → (router e.packages e.ip api location req s).0 ≡ ok (routed direction none)
        → direction ≢ Types.agent_to_pstn
        → IsSentFor request s send_temporarily_unavailable
    not_registered :
        (text : String)
        → Throws request s (status not_found text)
        → IsSentFor request s send_temporarily_unavailable
    failed :
        (reason : Error)
        → ((text : String) → reason ≢ status not_found text)
        → Throws request s reason
        → IsSentFor request s send_internal_server_error

  abbrev Outcome : MessageRequest → S → Result Sent → Type 0
  Outcome request s (ok sent) = IsSentFor request s sent
  Outcome request s (err reason) = Throws request s reason

  module _ (request req : MessageRequest) (s : S)
      (numbered : enforce_e164 e.phone e.enforces_e164 e.enforces_mobile_prefix request
        ≡ ok req) where
    send_request_lem :
        (route : Route) (s' : S)
        → IsRouted req s route
        → Outcome request s (send_request e api location route req s').0
    send_request_lem route s' is_routed = elim (Result-cases (forward e.ip route req)) [
      | inl (out, sent) ↦ rw sent (forwards req out route numbered is_routed sent)
      | inr (reason, thrown) ↦ rw thrown (forwarding req route numbered is_routed thrown)
    ]

    unrouted_lem :
        (direction : RoutingDirection)
        → get_header_value req ExtraHeader.edgeport_ref ≡ none
        → (router e.packages e.ip api location req s).0 ≡ ok (routed direction none)
        → IsSentFor request s (unrouted e api location direction)
    unrouted_lem Types.agent_to_pstn bare h = no_trunk req numbered bare h
    unrouted_lem Types.from_pstn bare h = no_route req Types.from_pstn numbered bare h (λ d. cc)
    unrouted_lem Types.agent_to_agent bare h =
        no_route req Types.agent_to_agent numbered bare h (λ d. cc)
    unrouted_lem Types.agent_to_peer bare h =
        no_route req Types.agent_to_peer numbered bare h (λ d. cc)
    unrouted_lem Types.peer_to_agent bare h =
        no_route req Types.peer_to_agent numbered bare h (λ d. cc)
    unrouted_lem Types.peer_to_pstn bare h =
        no_route req Types.peer_to_pstn numbered bare h (λ d. cc)
    unrouted_lem Types.unknown bare h = no_route req Types.unknown numbered bare h (λ d. cc)

    routed_lem :
        (found : RouterResult) (s' : S)
        → get_header_value req ExtraHeader.edgeport_ref ≡ none
        → (router e.packages e.ip api location req s).0 ≡ ok found
        → Outcome request s (send_routed e api location req found s').0
    routed_lem (refused reply) s' bare h = refuses req reply numbered bare h
    routed_lem (routed direction none) s' bare h = unrouted_lem direction bare h
    routed_lem (routed direction (some route)) s' bare h =
        send_request_lem (with_direction e api location direction route) s'
          (by_router direction route bare h)

    from_last_message :
        (ref : String) (made : Result Route)
        → get_header_value req ExtraHeader.edgeport_ref ≡ some ref
        → create_route_from_last_message e.packages.now req ≡ made
        → Outcome request s (continue made (λ route. send_request e api location route req) s).0
    from_last_message ref (ok route) named h =
        send_request_lem route s (by_edge_port ref route named h)
    from_last_message ref (err reason) named h = last_message req ref numbered named h

    from_router :
        (found : Result RouterResult) (s' : S)
        → get_header_value req ExtraHeader.edgeport_ref ≡ none
        → (router e.packages e.ip api location req s).0 ≡ found
        → Outcome request s (continue found (send_routed e api location req) s').0
    from_router (ok found) s' bare h = routed_lem found s' bare h
    from_router (err reason) s' bare h = routing req numbered bare h

    dispatch_for_lem :
        (ref : Option String)
        → get_header_value req ExtraHeader.edgeport_ref ≡ ref
        → Outcome request s (dispatch_for e api location ref req s).0
    dispatch_for_lem (some ref) named = from_last_message ref _ named refl
    dispatch_for_lem none bare = from_router _ _ bare refl

    dispatch_request_lem : Outcome request s (dispatch_request e api location req s).0
    unfolding dispatch_request
    dispatch_request_lem = dispatch_for_lem _ refl

  module _ (request : MessageRequest) (s : S) where
    abbrev IsAnswered : Result Sent → S → Type 0
    IsAnswered r s' =
        (sent : Sent) × ((recover (request_failed e api location) r s').0 ≡ ok sent)
        × IsSentFor request s sent

    caught : (reason : Error) (s' : S) → Throws request s reason → IsAnswered (err reason) s'
    caught (status Prelude.GrpcStatus.not_found text) s' t = (_, refl, not_registered text t)
    caught type_error s' t = (_, refl, failed type_error (λ text h. cc) t)
    caught (error m) s' t = (_, refl, failed (error m) (λ text h. cc) t)
    caught (status Prelude.GrpcStatus.invalid_argument m) s' t =
        (_, refl, failed (status Prelude.GrpcStatus.invalid_argument m) (λ text h. cc) t)
    caught (status Prelude.GrpcStatus.unavailable m) s' t =
        (_, refl, failed (status Prelude.GrpcStatus.unavailable m) (λ text h. cc) t)
    caught (status Prelude.GrpcStatus.unimplemented m) s' t =
        (_, refl, failed (status Prelude.GrpcStatus.unimplemented m) (λ text h. cc) t)
    caught (status Prelude.GrpcStatus.already_exists m) s' t =
        (_, refl, failed (status Prelude.GrpcStatus.already_exists m) (λ text h. cc) t)
    caught (status Prelude.GrpcStatus.unknown m) s' t =
        (_, refl, failed (status Prelude.GrpcStatus.unknown m) (λ text h. cc) t)

    answered : (r : Result Sent) (s' : S) → Outcome request s r → IsAnswered r s'
    answered (ok sent) s' is_sent = (sent, refl, is_sent)
    answered (err reason) s' thrown = caught reason s' thrown

    -- handleRequest sends something for every request: the request as it is forwarded to the route of
    -- its edge port or to the one the router found, with the direction of the call; the reply of the
    -- router where it refuses; "not found" for a call to the PSTN without a route and "temporarily
    -- unavailable" for another without one, or if NOT_FOUND was thrown; and a server error if anything
    -- else was thrown by the normalisation of the numbers, the routing or the forwarding.
    pub handle_request_answers :
        (sent : Sent) × ((handle_request e api location request s).0 ≡ ok sent)
        × IsSentFor request s sent
    unfolding handle_request
    handle_request_answers =
        elim (Result-cases
          (enforce_e164 e.phone e.enforces_e164 e.enforces_mobile_prefix request)) [
            | inl (req, numbered) ↦ rw numbered (
                answered (dispatch_request e api location req s).0
                  (dispatch_request e api location req s).1
                  (dispatch_request_lem request req s numbered))
            | inr (reason, thrown) ↦ rw thrown (answered (err reason) s (numbers thrown))
          ]

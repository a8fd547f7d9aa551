-- ===== src/Connect/Handlers/Register/Reached.antt =====
-- From a registration to a call: the connect processor over the location service, through its
-- client.
use routr.Prelude.{
  ℤ, String, ◌≡◌, Bool, true, List, [], ◌∷◌, map, refl, Option, some, Error, GrpcStatus, ok, arith,
}
use routr.Sip.{MessageRequest, Route, Authorization}
use routr.Sip.Connect.{Agent, agent}
use routr.Processor.Target.{get_target_aor}
use routr.Location.Types.{LocatorStore, StoreLaws, AddRouteRequest, FindRoutesRequest}
use routr.Location.Helper.{create_route}
use routr.Location.Client.{Wire, arrived, service_stub, add_route_call, find_routes_call, container}
use routr.Location.Service.{
  Location, add_route, find_routes, handle_find_routes, call_key, label_string,
}
use routr.Location.Service.Calls.{plain_request}
use routr.Location.Service.Registered.{add_route-find_routes}
use routr.Connect.Types.{ApiClient, LocationClient}
use routr.Connect.Utils.{find_resource}
use routr.Connect.Handlers.{Settings}
use routr.Connect.Handlers.Register.{handle_register, register_route, register_with_credentials}
use routr.Connect.Handlers.Register.Entitled.{accepts}
use routr.Connect.Router.{agent_to_agent}

-- What arrives of the request that `agentToAgent` sends for a call: the labels and the reference for
-- session affinity, which are not set, as an empty map and an empty text.
abbrev pub arrived_call : String → String → FindRoutesRequest
arrived_call aor call_id = record (plain_request aor call_id) {
  session_affinity_ref = some "";
  labels = some [];
}

module _ {S : Type 0} (wire : Wire) (carried : Error → GrpcStatus × String) (addr : String)
    (store : ℤ → LocatorStore S) (locale_before : String → String → Bool) where
  -- The client that the connect processor has, of the location service at a time.
  abbrev pub location_at : ℤ → LocationClient (Location S)
  location_at now = record {
    add_route = add_route_call addr (service_stub wire carried (store now) locale_before);
    find_routes = find_routes_call addr (service_stub wire carried (store now) locale_before);
  }

  -- What the service finds arrives at the client.
  found_by_client :
      (now : ℤ) (request : FindRoutesRequest) (l : Location S) (r : Route) (rs : List Route)
      → (find_routes (store now) locale_before (wire.find_routes_request request) l).0 ≡ ok (r ∷ rs)
      → ((location_at now).find_routes request l).0 ≡ ok (wire.route r ∷ map wire.route rs)
  unfolding find_routes_call handle_find_routes
  found_by_client now request l r rs h = rw h

  -- A registration that the client does not reject was done by the service, as it arrived.
  added_by_client :
      (now : ℤ) (req : AddRouteRequest) (l l' : Location S)
      → (location_at now).add_route req l ≡ (ok tt, l')
      → add_route (store now) (arrived wire req) l ≡ (ok tt, l')
  unfolding add_route_call container
  added_by_client now req l l' h = ground arith

  module _ (e : Settings) (api : ApiClient) (now : ℤ) (req : MessageRequest) where
    abbrev here : LocationClient (Location S)
    here = location_at now

    abbrev request : String → Option ℤ → Route → AddRouteRequest
    request aor max route = record { aor = aor; route = route; max_contacts = max }

    -- An agent's REGISTER that is accepted was added to the location service.
    accepted_agent :
        (auth : Authorization) (a : Agent) (route : Route) (l : Location S)
        → req.message.authorization ≡ some auth
        → find_resource api req.message.from.address.uri.host req.message.from.address.uri.user
          ≡ some (agent a)
        → create_route e.packages.now req ≡ ok route
        → accepts (handle_register e api here req l).0 ≡ true
        → here.add_route (request (get_target_aor req) a.max_contacts route) l
          ≡ (ok tt, (handle_register e api here req l).1)
    unfolding handle_register register_with_credentials register_route
    accepted_agent auth a route l carries named made h = ground arith

    module _ {IsGood : S → Type 0} {is_alive : ℤ → Route → Bool}
        (laws : StoreLaws store IsGood is_alive) where
      -- After a REGISTER with credentials of an agent is accepted, `agentToAgent` routes a call for
      -- the address of record that it registered, with a reference for which the location service
      -- holds no routes yet, to the route made of that REGISTER, as it arrives at the service and
      -- back, as long as it is alive there. The store of the service is any that keeps the laws, the
      -- calls to the service are answered, and fields that are not set arrive with their defaults.
      pub handle_register-agent_to_agent :
          (auth : Authorization) (a : Agent) (route : Route) (l : Location S) (later : ℤ)
          (call : MessageRequest)
          → wire.find_routes_request (plain_request (get_target_aor req) call.ref)
            ≡ arrived_call (get_target_aor req) call.ref
          → IsGood l.store
          → req.message.authorization ≡ some auth
          → find_resource api req.message.from.address.uri.host req.message.from.address.uri.user
            ≡ some (agent a)
          → create_route e.packages.now req ≡ ok route
          → accepts (handle_register e api here req l).0 ≡ true
          → get_target_aor call ≡ get_target_aor req
          → ((store later).get (call_key (get_target_aor req) call.ref) l.store).0 ≡ ok []
          → is_alive later (wire.route route) ≡ true
          → (agent_to_agent e.packages e.ip api
              (location_at later)
              call
              (handle_register e api here req l).1).0
            ≡ ok (some (wire.route (wire.route route)))
      unfolding agent_to_agent label_string
      handle_register-agent_to_agent auth a route l later call defaults good carries named made h
            same fresh alive =
          let l' = (handle_register e api here req l).1 in
          let sent = request (get_target_aor req) a.max_contacts route in
          let done =
            added_by_client now sent l l' (accepted_agent auth a route l carries named made h) in
          let (rs, found) =
            add_route-find_routes store laws locale_before now later (arrived wire sent)
              (arrived_call (get_target_aor req) call.ref) l l' refl refl refl good done fresh
              alive in
          let read =
            found_by_client later (plain_request (get_target_aor req) call.ref) l'
              (wire.route route) rs (rw defaults found) in
          rw (same, read)

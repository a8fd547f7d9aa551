-- ===== src/Location/Client.antt =====
-- mods/location/src/client.ts, over the calls that the gRPC package makes of the methods of a
-- service, and those calls on the location service itself.
use routr.Prelude.{
  ℤ, String, Bool, List, [], ◌∷◌, map, Option, none, some, Error, type_error, error, status,
  GrpcStatus, unavailable, template, get_or,
}
use routr.Prelude.Exec.{Exec, pure, throw, attempt, ◌>>=◌}
use routr.Sip.{Route}
use routr.Location.Types.{LocatorStore, AddRouteRequest, FindRoutesRequest, RemoveRoutesRequest}
use routr.Location.Service.{Location, add_route, handle_find_routes, handle_remove_routes}

-- new LOCATION_OBJECT_PROTO.Location(addr, credentials): what a call gives to its callback, an error
-- or a response, with the routes of the response. The response can be `undefined`.
pub record LocationStub (S : Type 0) : Type 0 where
  pub add_route : AddRouteRequest → Exec S (Option (Unit {0}))
  pub find_routes : FindRoutesRequest → Exec S (Option (List Route))
  pub remove_routes : RemoveRoutesRequest → Exec S (Option (List Route))

abbrev service_unavailable : String → Error
service_unavailable address =
    status unavailable (template ("Service unavailable [service address = " ∷ address ∷ "]" ∷ []))

module _ {S : Type 0} (addr : String) where
  -- An error without a code does not reject: the response, then `undefined`, is resolved.
  abbrev on_error : {A : Type 0} → Error → Exec S (Option A)
  on_error (status unavailable _) = throw (service_unavailable addr)
  on_error (status code details) = throw (status code details)
  on_error (error _) = pure none
  on_error type_error = pure none

  unfoldable pub container : {A : Type 0} → Exec S (Option A) → Exec S (Option A)
  container call = attempt call on_error

  module _ (stub : LocationStub S) where
    unfoldable pub add_route_call : AddRouteRequest → Exec S (Unit {0})
    unfolding container
    add_route_call request = container (stub.add_route request) >>= λ _. pure tt

    -- (await container(...))?.routes ?? []
    unfoldable pub find_routes_call : FindRoutesRequest → Exec S (List Route)
    unfolding container
    find_routes_call request =
        container (stub.find_routes request) >>= λ response. pure (get_or response [])

    unfoldable pub remove_routes_call : RemoveRoutesRequest → Exec S (Unit {0})
    unfolding container
    remove_routes_call request = container (stub.remove_routes request) >>= λ _. pure tt

-- A call that reaches the service and is answered. What the callback gets for an exception is the
-- gRPC package's: a code and a text.
module _ {S : Type 0} (carried : Error → GrpcStatus × String) where
  abbrev pub failed : {A : Type 0} → Error → Exec S A
  failed e = throw (status (carried e).0 (carried e).1)

  abbrev pub answered : {A : Type 0} → Exec S A → Exec S (Option A)
  answered handler = attempt (handler >>= λ a. pure (some a)) failed

-- What arrives of what is sent, through the messages of mods/common/src/protos/location.proto, as
-- the packages of gRPC code it: a field that is not set arrives with the default of its type, and one
-- that the message has not is lost. A text, such as an address of record, arrives as it is; a number
-- that arrives as the text of its digits stands for itself.
pub record Wire : Type 0 where
  pub route : Route → Route
  pub max_contacts : Option ℤ → Option ℤ
  pub find_routes_request : FindRoutesRequest → FindRoutesRequest

module _ (wire : Wire) where
  abbrev pub arrived : AddRouteRequest → AddRouteRequest
  arrived request = record {
    aor = request.aor;
    route = wire.route request.route;
    max_contacts = wire.max_contacts request.max_contacts;
  }

  -- The response to removeRoutes is an empty message, without the routes.
  abbrev pub service_stub :
      {S : Type 0}
      → (Error → GrpcStatus × String)
      → LocatorStore S
      → (String → String → Bool)
      → LocationStub (Location S)
  service_stub carried store locale_before = record {
    add_route = λ request. answered carried (add_route store (arrived request));
    find_routes = λ request. answered carried (
        handle_find_routes store locale_before (wire.find_routes_request request) >>= λ routes.
        pure (map wire.route routes));
    remove_routes = λ request.
        answered carried (handle_remove_routes store locale_before request >>= λ routes. pure []);
  }

-- ===== src/Tests/Composing.antt =====
-- The connect processor over the location service and its in-memory store.
use routr.Prelude.{
  ℤ, pos, String, ◌≡◌, refl, true, false, List, [], ◌∷◌, Option, none, some, Error, Result, ok, err,
  unknown, inl, Bool, GrpcStatus, arith,
}
use routr.Sip.{MessageRequest, Authorization, Route, Method, Parameters}
use routr.Location.Types.{FindRoutesRequest}
use routr.Location.Helper.{create_route}
use routr.Location.Client.{Wire, add_route_call, find_routes_call}
use routr.Location.MemoryStore.{MemoryStore, memory_store, create, get, put}
use routr.Location.MemoryStore.Contacts.{create-IsSound, put-IsSound, memory_store-StoreLaws}
use routr.Location.Service.{Location, add_route, find_routes, label_string}
use routr.Location.Service.Calls.{plain_request}
use routr.Location.Service.Sticky.{find_routes_again}
use routr.Sip.Connect.{Agent}
use routr.Connect.Types.{ApiClient}
use routr.Connect.Auth.{calculate_auth_response}
use routr.Connect.Access.{secret_of}
use routr.Connect.Handlers.{Settings}
use routr.Connect.Handlers.Register.{handle_register}
use routr.Connect.Handlers.Register.Reached.{location_at, handle_register-agent_to_agent}
use routr.Connect.Router.{agent_to_agent}
use routr.Tests.Data.{ip, api, packages, invite, uri, john, far, now}

composing : Unit {0}
unfolding handle_register calculate_auth_response create_route find_routes_call add_route_call
    agent_to_agent find_routes label_string add_route get put
composing = tt

abbrev settings : Settings
settings = record {
  packages = packages;
  ip = ip;
  phone = λ number mobile. none;
  enforces_e164 = false;
  enforces_mobile_prefix = false;
}

abbrev carried : Error → GrpcStatus × String
carried e = (unknown, "failed")

abbrev before : String → String → Bool
before a b = true

abbrev later : ℤ
later = pos 9000

abbrev zero_if_unset : Option ℤ → Option ℤ
zero_if_unset none = some (pos 0)
zero_if_unset n = n

abbrev empty_if_unset : Option String → Option String
empty_if_unset none = some ""
empty_if_unset s = s

abbrev no_labels_if_unset : Option Parameters → Option Parameters
no_labels_if_unset none = some []
no_labels_if_unset labels = labels

-- The headers and the metadata of a route are not in its message.
abbrev route_arrived : Route → Route
route_arrived r = record r {
  user = empty_if_unset r.user;
  registered_on = zero_if_unset r.registered_on;
  session_count = zero_if_unset r.session_count;
  expires = zero_if_unset r.expires;
  labels = no_labels_if_unset r.labels;
  headers = none;
  metadata = none;
}

abbrev wire : Wire
wire = record {
  route = route_arrived;
  max_contacts = zero_if_unset;
  find_routes_request = λ request. record request {
    session_affinity_ref = empty_if_unset request.session_affinity_ref;
    labels = no_labels_if_unset request.labels;
  };
}

-- An agent with a maximum of contacts, and an API that knows only this agent.
abbrev single : Agent
single = record john { max_contacts = some (pos 1) }

abbrev agents_api : ApiClient
agents_api = record api { agents_by_username = λ u. ok (single ∷ []) }

abbrev challenge : Authorization
challenge = record {
  realm = "sip.local";
  scheme = "Digest";
  nonce = "n0";
  c_nonce = "c0";
  nonce_count = 1;
  response = "";
  username = "1001";
  uri = "sip:sip.local";
  algorithm = "MD5";
  qop = "auth";
  opaque = "";
}

abbrev proof : Authorization
proof = record challenge {
  response =
      calculate_auth_response packages challenge Method.register (secret_of john.credentials);
}

-- John registers for ten minutes; then he is called.
abbrev register : MessageRequest
register = record invite {
  ref = "register-1";
  method = Method.register;
  message = record invite.message {
    to = record {
      address = record { uri = uri "1001" "sip.local"; display_name = none };
      tag = none;
    };
    expires = some (record { expires = some (pos 600) });
    authorization = some proof;
  };
}

abbrev call : MessageRequest
call = record invite { message = record invite.message { to = register.message.to } }

abbrev service : Location MemoryStore
service = record { store = create 10; rr_count = [] }

abbrev route_of : Result Route → Route
route_of (ok r) = r
route_of (err _) = far

abbrev registered : Location MemoryStore
registered =
    (handle_register settings agents_api
      (location_at wire carried "location:51902" memory_store before now) register service).1

handle_register-agent_to_agent_example :
    (agent_to_agent packages ip agents_api
      (location_at wire carried "location:51902" memory_store before later)
      call
      registered).0
    ≡ ok (some (route_arrived (route_arrived (route_of (create_route now register)))))
unfolding composing
handle_register-agent_to_agent_example =
    handle_register-agent_to_agent wire carried "location:51902" memory_store before settings
      agents_api now register memory_store-StoreLaws proof single
      (route_of (create_route now register)) service later call refl (create-IsSound 10) refl refl
      refl refl refl refl refl

-- The call finds the route, and finds it again later.
abbrev asked : FindRoutesRequest
asked = plain_request "sip:1001@sip.local" call.ref

abbrev after_call : Location MemoryStore
after_call = (find_routes (memory_store now) before asked registered).1

find_routes_again_example :
    (rs : List Route) × ((find_routes (memory_store later) before asked after_call).0
      ≡ ok (route_arrived (route_of (create_route now register)) ∷ rs))
unfolding composing
find_routes_again_example =
    find_routes_again memory_store memory_store-StoreLaws before now later asked registered
      after_call (route_arrived (route_of (create_route now register))) []
      (put-IsSound now "sip:1001@sip.local" (route_arrived (route_of (create_route now register)))
        (create 10) (create-IsSound 10))
      (inl refl) (omega arith) refl refl

-- ===== src/Connect/Types.antt =====
-- mods/connect/src/types.ts, and the services that the connect processor calls: the Connect API, the
-- location service, the verifier of tokens, and the packages that compute digests and match rules.
use routr.Prelude.{ℤ, String, Bool, List, Option, Result}
use routr.Prelude.Exec.{Exec}
use routr.Sip.{Route, Method}
use routr.Sip.Connect.{Agent, Peer, INumber, Trunk, Domain}
use routr.Location.Types.{AddRouteRequest, FindRoutesRequest}

pub data RoutingDirection : Type 0 where
  from_pstn agent_to_agent agent_to_pstn agent_to_peer : RoutingDirection
  peer_to_agent peer_to_pstn unknown : RoutingDirection

abbrev pub direction_value : RoutingDirection → String
direction_value from_pstn = "from-pstn"
direction_value agent_to_agent = "agent-to-agent"
direction_value agent_to_pstn = "agent-to-pstn"
direction_value agent_to_peer = "agent-to-peer"
direction_value peer_to_agent = "peer-to-agent"
direction_value peer_to_pstn = "peer-to-pstn"
direction_value unknown = "unknown"

-- `findBy` of each resource, by the field that the program asks for; `.items`.
pub record ApiClient : Type 0 where
  -- A user name may be `undefined`.
  pub domains_by_uri : String → Result (List Domain)
  pub numbers_by_tel_url : String → Result (List INumber)
  pub agents_by_username : Option String → Result (List Agent)
  pub peers_by_username : Option String → Result (List Peer)
  pub peers_by_aor : String → Result (List Peer)
  pub trunks_by_inbound_uri : String → Result (List Trunk)

-- The client of the location service, over the service's state.
pub record LocationClient (S : Type 0) : Type 0 where
  pub add_route : AddRouteRequest → Exec S (Unit {0})
  pub find_routes : FindRoutesRequest → Exec S (List Route)

-- mods/common/src/verifier/types.ts
pub record VerifyResponse : Type 0 where
  pub ref : String
  pub domain : String
  pub domain_ref : String
  pub aor : String
  pub aor_link : String
  pub username : String
  pub max_contacts : ℤ
  pub allowed_methods : List Method

pub record Packages : Type 0 where
  -- crypto.createHash("MD5").update(text).digest("hex")
  pub md5hex : String → String
  -- generateNonce(), which hashes the time and a random number
  pub nonce : String
  -- Buffer.from(text).toString("base64")
  pub base64 : String → String
  -- new RegExp(rule).test(text), which throws for a rule that is no expression
  pub matches : String → String → Result Bool
  -- the verifier, if one is configured
  pub verify : Option (String → Result VerifyResponse)
  -- Date.now()
  pub now : ℤ

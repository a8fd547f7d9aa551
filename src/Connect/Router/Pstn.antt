-- ===== src/Connect/Router/Pstn.antt =====
-- `agentToPSTN` and `peerToPSTN` of mods/connect/src/router.ts.
pub mod Privacy
use routr.Prelude.{
  String, Bool, true, false, List, [], ◌∷◌, Option, none, some, Error, Result, ok, err, type_error,
  error, defined, ◌>>=◌, ◌==◌, string_eq, head?, template, shown, to_lower, to_upper, if◌then◌else◌,
}
use routr.Sip.{MessageRequest, Route, HeaderModifier, add, remove, privacy_none, privacy_private}
use routr.Sip.ExtraHeader
use routr.Sip.Connect.{Agent, INumber, Trunk, Domain, EgressPolicy}
use routr.Processor.Extensions.{get_header_value}
use routr.Connect.Types.{ApiClient, Packages}
use routr.Connect.Utils.{
  OutboundUri, find_number_by_tel_url, get_trunk_uri, create_remote_party_id,
  create_p_asserted_identity, create_trunk_authentication,
}

-- The value of the Privacy header that is put in, by whether the test for privacy holds.
abbrev pub privacy_value : Bool → String
privacy_value true = to_lower privacy_private
privacy_value false = to_lower privacy_none

-- agent.privacy?.toUpperCase() === CT.Privacy.PRIVATE
unfoldable pub agent_is_private : Option String → Bool
unfolding to_upper
agent_is_private none = false
agent_is_private (some s) = to_upper s == privacy_private

-- privacy?.toLocaleLowerCase() === CT.Privacy.PRIVATE
unfoldable pub peer_is_private : Option String → Bool
unfolding to_lower
peer_is_private none = false
peer_is_private (some s) = to_lower s == privacy_private

-- The route to the trunk: both functions build it, from the number and the trunk that they found.
unfoldable pub pstn_route : Packages → MessageRequest → Trunk → INumber → String → Result Route
unfolding get_trunk_uri create_remote_party_id create_p_asserted_identity
pstn_route p req trunk number privacy = do
  uri ← get_trunk_uri trunk
  via ← defined (head? req.message.via)
  party ← create_remote_party_id trunk number
  identity ← create_p_asserted_identity req trunk number
  ok (record {
    user = uri.user;
    host = uri.host;
    port = some uri.port;
    advertised_host = via.host;
    advertised_port = via.port;
    transport = some uri.transport;
    registered_on = none;
    session_count = none;
    expires = none;
    edge_port_ref = req.edge_port_ref;
    listening_points = req.listening_points;
    localnets = req.localnets;
    external_addrs = req.external_addrs;
    labels = none;
    headers = some (
        record { name = "Privacy"; value = none; action = remove }
        ∷ record { name = "Privacy"; value = some privacy; action = add }
        ∷ party
        ∷ identity
        ∷ create_trunk_authentication p trunk
        ∷ []);
    metadata = none;
  })

-- `policies.find((policy) => new RegExp(policy.rule).test(calleeNumber))`
unfoldable pub find_policy : Packages → String → List EgressPolicy → Result (Option EgressPolicy)
find_policy p callee_number [] = ok none
find_policy p callee_number (policy ∷ policies) =
    let rest = find_policy p callee_number policies in
    p.matches policy.rule callee_number >>= λ hit. if hit then ok (some policy) else rest

-- `agent.domain?.egressPolicies`, or the error thrown in its place.
abbrev pub egress_policies : Agent → Result (List EgressPolicy)
egress_policies a = elim a.domain [
  | none ↦ err type_error
  | some d ↦ elim d.egress_policies [
    | none ↦ err (error (template ("no egress policy found for Domain ref: " ∷ d.ref ∷ [])))
    | some policies ↦ ok policies
  ]
]

abbrev pub no_trunk : String → Error
no_trunk ref = error (template ("no trunk associated with Number ref: " ∷ ref ∷ []))

-- `policy.number?.trunk`, and the number that it comes with.
abbrev pub egress_trunk : EgressPolicy → Result (Trunk × INumber)
egress_trunk policy = elim policy.number [
  | none ↦ err (no_trunk "undefined")
  | some n ↦ elim n.trunk [ none ↦ err (no_trunk n.ref) | some trunk ↦ ok (trunk, n) ]
]

-- A transport is in upper case already.
unfoldable pub upper_transport : Route → Route
unfolding to_upper
upper_transport route = record route {
  transport = elim route.transport [ none ↦ none | some t ↦ some (to_upper t) ];
}

unfoldable pub agent_to_pstn : Packages → MessageRequest → Agent → Result Route
unfolding find_policy pstn_route agent_is_private upper_transport
agent_to_pstn p req a = do
  uri ← defined req.message.request_uri
  policies ← egress_policies a
  hit ← find_policy p (shown uri.user) policies
  policy ← defined hit
  found ← egress_trunk policy
  route ← pstn_route p req found.0 found.1 (privacy_value (agent_is_private a.privacy))
  ok (upper_transport route)

-- A header that is missing is `null`.
abbrev pub shown_or_null : Option String → String
shown_or_null none = "null"
shown_or_null (some s) = s

-- The number of the header X-DOD-Number, and its trunk.
unfoldable pub dod_trunk : ApiClient → MessageRequest → Result (Trunk × INumber)
unfolding get_header_value
dod_trunk api req =
    let tel = shown_or_null (get_header_value req ExtraHeader.dod_number) in
    find_number_by_tel_url api (template ("tel:" ∷ tel ∷ [])) >>= λ found. elim found [
      | none ↦ err (error (template ("no Number found for tel: " ∷ tel ∷ [])))
      | some n ↦ elim n.trunk [ none ↦ err (no_trunk n.ref) | some trunk ↦ ok (trunk, n) ]
    ]

unfoldable pub peer_to_pstn : Packages → ApiClient → MessageRequest → Result Route
unfolding dod_trunk pstn_route peer_is_private get_header_value
peer_to_pstn p api req = do
  found ← dod_trunk api req
  pstn_route p req found.0 found.1
      (privacy_value (peer_is_private (get_header_value req ExtraHeader.dod_privacy)))

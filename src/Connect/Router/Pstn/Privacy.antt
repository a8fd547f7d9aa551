-- ===== src/Connect/Router/Pstn/Privacy.antt =====
-- The Privacy header of calls to the PSTN.
use routr.Prelude.{
  String, ◌≡◌, refl, false, List, ◌∷◌, Option, none, some, ok, arith, >>=-eq-ok, ok-injective,
  eq_iff, to_lower, to_lower-ne_I, to_upper, ap, sym, subst, ◌∙◌, head?, defined, shown,
  if◌then◌else◌, ◌==◌, string_eq,
}
use routr.Processor.Extensions.{get_header_value}
use routr.Connect.Utils.{get_trunk_uri, create_remote_party_id, create_p_asserted_identity}
use routr.Sip.{MessageRequest, Route, HeaderModifier, add, remove}
use routr.Sip.ExtraHeader
use routr.Sip.Connect.{Agent, Trunk, INumber}
use routr.Connect.Types.{ApiClient, Packages}
use routr.Connect.Router.Pstn.{
  privacy_value, agent_is_private, peer_is_private, pstn_route, agent_to_pstn, peer_to_pstn,
  dod_trunk, upper_transport, egress_policies, egress_trunk, find_policy,
}

peer_is_private_never : (privacy : Option String) → peer_is_private privacy ≡ false
unfolding peer_is_private
peer_is_private_never none = refl
peer_is_private_never (some s) = ground (arith, eq_iff (to_lower s) "ID", to_lower-ne_I s "D")

-- The modifiers of the route start with those that take Privacy off and put it on.
pub record SetsPrivacy (route : Route) (privacy : String) : Type 0 where
  pub others : List HeaderModifier
  pub headers :
      route.headers
      ≡ some (
          record { name = "Privacy"; value = none; action = remove }
          ∷ record { name = "Privacy"; value = some privacy; action = add }
          ∷ others)

pstn_route-SetsPrivacy :
    (p : Packages) (req : MessageRequest) (trunk : Trunk) (n : INumber) (privacy : String)
    (route : Route)
    → pstn_route p req trunk n privacy ≡ ok route
    → SetsPrivacy route privacy
unfolding pstn_route
pstn_route-SetsPrivacy p req trunk n privacy route h =
    let (uri, _, h1) = >>=-eq-ok (get_trunk_uri trunk) _ h in
    let (via, _, h2) = >>=-eq-ok (defined (head? req.message.via)) _ h1 in
    let (party, _, h3) = >>=-eq-ok (create_remote_party_id trunk n) _ h2 in
    let (identity, _, h4) = >>=-eq-ok (create_p_asserted_identity req trunk n) _ h3 in
    record { others = _; headers = ap (λ r. r.headers) (sym (ok-injective h4)) }

-- Every route that `peerToPSTN` returns takes the header Privacy off and puts "none" in, whatever
-- the header X-DOD-Privacy says.
peer_to_pstn_never_private :
    (p : Packages) (api : ApiClient) (req : MessageRequest) (route : Route)
    → peer_to_pstn p api req ≡ ok route
    → SetsPrivacy route "none"
unfolding peer_to_pstn
peer_to_pstn_never_private p api req route h =
    let (found, _, h1) = >>=-eq-ok (dod_trunk api req) _ h in
    let privacy = get_header_value req ExtraHeader.dod_privacy in
    subst (λ b. SetsPrivacy route (privacy_value b)) (peer_is_private_never privacy)
      (pstn_route-SetsPrivacy p req found.0 found.1 _ route h1)

-- The value for what an agent asks for.
abbrev pub agent_privacy : Option String → String
agent_privacy none = "none"
agent_privacy (some s) = if to_upper s == "ID" then "id" else "none"

agent_privacy_lem :
    (privacy : Option String) → privacy_value (agent_is_private privacy) ≡ agent_privacy privacy
unfolding agent_is_private to_lower
agent_privacy_lem none = refl
agent_privacy_lem (some s) = ground arith

-- A route that `agentToPSTN` returns takes the header Privacy off and puts in "id" if the agent's
-- privacy is "ID" in any case, and "none" if it is something else or not given.
agent_to_pstn-SetsPrivacy :
    (p : Packages) (req : MessageRequest) (a : Agent) (route : Route)
    → agent_to_pstn p req a ≡ ok route
    → SetsPrivacy route (agent_privacy a.privacy)
unfolding agent_to_pstn upper_transport
agent_to_pstn-SetsPrivacy p req a route h =
    let (uri, _, h1) = >>=-eq-ok (defined req.message.request_uri) _ h in
    let (policies, _, h2) = >>=-eq-ok (egress_policies a) _ h1 in
    let (hit, _, h3) = >>=-eq-ok (find_policy p (shown uri.user) policies) _ h2 in
    let (policy, _, h4) = >>=-eq-ok (defined hit) _ h3 in
    let (found, _, h5) = >>=-eq-ok (egress_trunk policy) _ h4 in
    let (plain, built, h6) =
      >>=-eq-ok (pstn_route p req found.0 found.1 (privacy_value (agent_is_private a.privacy))) _
        h5 in
    let set = pstn_route-SetsPrivacy p req found.0 found.1 _ plain built in
    record {
      others = set.others;
      headers =
          ap (λ r. r.headers) (sym (ok-injective h6))
          ∙ set.headers
          ∙ ap
              (λ v. some (
                record { name = "Privacy"; value = none; action = remove }
                ∷ record { name = "Privacy"; value = some v; action = add }
                ∷ set.others))
              (agent_privacy_lem a.privacy);
    }

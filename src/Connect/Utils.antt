-- ===== src/Connect/Utils.antt =====
-- mods/connect/src/utils.ts
pub mod Directions
use routr.Prelude.{
  ℤ, pos, String, Bool, true, false, not, ◌&&◌, List, [], ◌∷◌, Option, none, some, Error, Result,
  ok, err, type_error, error, status, not_found, defined, throw_if, ◌>>=◌, ◌>>◌, ◌==◌, string_eq,
  option_eq, head?, get_or, get_elem?, template, shown, truthy, split, if◌then◌else◌,
}
use routr.Sip.{MessageRequest, HeaderModifier, Transport, add, udp}
use routr.Sip.ExtraHeader
use routr.Sip.Connect.{
  Agent, Peer, INumber, Trunk, TrunkUri, Domain, Credentials, RoutableResourceUnion, agent, peer,
  number,
}
use routr.Processor.Extensions.{get_header_value}
use routr.Connect.Types.{ApiClient, Packages, RoutingDirection}
use routr.Connect.Types

-- The kinds that `isKind` is asked about.
pub data Kind : Type 0 where
  agent_kind peer_kind number_kind unknown_kind : Kind

-- `"privacy" in res`, `"telUrl" in res` and `"username" in res`: an agent has a user name too.
unfoldable pub is_kind : Option RoutableResourceUnion → Kind → Bool
is_kind none unknown_kind = true
is_kind none _ = false
is_kind (some (agent a)) agent_kind = true
is_kind (some (agent a)) peer_kind = true
is_kind (some (agent a)) _ = false
is_kind (some (number n)) number_kind = true
is_kind (some (number n)) _ = false
is_kind (some (peer p)) peer_kind = true
is_kind (some (peer p)) _ = false

unfoldable pub get_routing_direction :
    Option RoutableResourceUnion → Option RoutableResourceUnion → RoutingDirection
unfolding is_kind
get_routing_direction caller callee =
    if is_kind caller agent_kind && is_kind callee agent_kind
    then Types.agent_to_agent
    else if is_kind caller agent_kind && is_kind callee unknown_kind
    then Types.agent_to_pstn
    else if is_kind caller peer_kind && is_kind callee agent_kind
    then Types.peer_to_agent
    else if is_kind caller agent_kind && is_kind callee peer_kind
    then Types.agent_to_peer
    else if is_kind callee number_kind
    then Types.from_pstn
    else if is_kind caller peer_kind && is_kind callee unknown_kind
    then Types.peer_to_pstn
    else Types.unknown

module _ (api : ApiClient) where
  abbrev pub find_domain : String → Result (Option Domain)
  find_domain domain_uri = do items ← api.domains_by_uri domain_uri; ok (head? items)

  abbrev pub find_number_by_tel_url : String → Result (Option INumber)
  find_number_by_tel_url tel_url = do items ← api.numbers_by_tel_url tel_url; ok (head? items)

  abbrev ref_of : Option Domain → Option String
  ref_of none = none
  ref_of (some d) = some d.ref

  -- `agent.domain.ref != domain?.ref`, which throws for an agent with no domain.
  abbrev foreign : Agent → Option Domain → Result Bool
  foreign a domain = do home ← defined a.domain; ok (not (some home.ref == ref_of domain))

  abbrev peer_by_username : Option String → Result (Option RoutableResourceUnion)
  peer_by_username userpart = do
    items ← api.peers_by_username userpart
    ok (elim (head? items) [ none ↦ none | some p ↦ some (peer p) ])

  -- The body of the `try`: a number, else an agent of the domain, else a peer.
  unfoldable pub look_up : String → Option String → Result (Option RoutableResourceUnion)
  look_up domain_uri userpart = do
    domain ← find_domain domain_uri
    found ← find_number_by_tel_url (template ("tel:" ∷ shown userpart ∷ []))
    elim found [
      | some n ↦ ok (some (number n))
      | none ↦ api.agents_by_username userpart >>= λ agents. elim (head? agents) [
        | none ↦ peer_by_username userpart
        | some a ↦ foreign a domain >>= λ other. if other then ok none else ok (some (agent a))
      ]
    ]

  -- Every error is caught: NOT_FOUND returns null, and any other one `undefined`.
  unfoldable pub find_resource : String → Option String → Option RoutableResourceUnion
  unfolding look_up
  find_resource domain_uri userpart = elim (look_up domain_uri userpart) [ ok r ↦ r | err _ ↦ none ]

pub record OutboundUri : Type 0 where
  pub user : Option String
  pub host : String
  pub port : ℤ
  pub transport : Transport

unfoldable pub get_trunk_uri : Trunk → Result OutboundUri
get_trunk_uri trunk = elim trunk.uris [
  | none ↦ err (error (template ("trunk " ∷ trunk.ref ∷ " has no outbound settings" ∷ [])))
  | some uris ↦ elim (head? uris) [
    | none ↦ err type_error
    | some uri ↦ ok (record {
      user = uri.user;
      host = uri.host;
      port = get_or uri.port (pos 5060);
      transport = get_or uri.transport udp;
    })
  ]
]

-- number.telUrl.split(":")[1], as a template writes it
unfoldable pub remote_number : INumber → String
unfolding split
remote_number n = get_or (get_elem? (split b':' n.tel_url) 1) "undefined"

unfoldable pub create_p_asserted_identity : MessageRequest → Trunk → INumber → Result HeaderModifier
unfolding remote_number get_trunk_uri
create_p_asserted_identity req trunk n = do
  uri ← get_trunk_uri trunk
  let display_name = req.message.from.address.display_name
  let sip_uri = template ("<sip:" ∷ remote_number n ∷ "@" ∷ uri.host ∷ ";user=phone>" ∷ [])
  ok (record {
    name = "P-Asserted-Identity";
    value = some (
        if truthy display_name
        then template ("\"" ∷ get_or display_name "" ∷ "\" " ∷ sip_uri ∷ [])
        else sip_uri);
    action = add;
  })

unfoldable pub create_remote_party_id : Trunk → INumber → Result HeaderModifier
unfolding remote_number get_trunk_uri
create_remote_party_id trunk n = do
  uri ← get_trunk_uri trunk
  ok (record {
    name = "Remote-Party-ID";
    value =
        some (
          template
            ("<sip:" ∷ remote_number n ∷ "@" ∷ uri.host ∷ ">;screen=yes;party=calling" ∷ []));
    action = add;
  })

abbrev username_of : Option Credentials → String
username_of none = "undefined"
username_of (some c) = c.username

abbrev password_of : Option Credentials → String
password_of none = "undefined"
password_of (some c) = c.password

abbrev pub create_trunk_authentication : Packages → Trunk → HeaderModifier
create_trunk_authentication p trunk = record {
  name = ExtraHeader.gateway_auth;
  value = some (
      p.base64 (
        template (
          username_of trunk.outbound_credentials
          ∷ ":"
          ∷ password_of trunk.outbound_credentials
          ∷ [])));
  action = add;
}

-- The value of the token's header, which is used as a condition.
abbrev pub has_x_connect_object_header : MessageRequest → Option String
has_x_connect_object_header req = get_header_value req ExtraHeader.connect_token

abbrev pub is_token_call : MessageRequest → Bool
is_token_call req = truthy (has_x_connect_object_header req)

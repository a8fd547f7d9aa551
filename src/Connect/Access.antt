-- ===== src/Connect/Access.antt =====
-- mods/connect/src/access.ts. `none` is `undefined`: the request passes.
pub mod Sound
use routr.Prelude.{
  String, Bool, not, List, [], ◌∷◌, Option, none, some, Error, Result, ok, err, type_error, defined,
  ◌>>=◌, ◌==◌, string_eq, filter_r, head?, truthy, if◌then◌else◌,
}
use routr.Sip.{MessageRequest, Authorization}
use routr.Sip.Connect.{
  Agent, Peer, INumber, Trunk, Credentials, AccessControlList, RoutableResourceUnion, agent, peer,
  number,
}
use routr.Common.IpUtils.{IpLib, has_ip}
use routr.Connect.Types.{ApiClient, Packages, RoutingDirection}
use routr.Connect.Types
use routr.Connect.Auth.{Secret, calculate_auth_response}
use routr.Connect.Responses.{
  Reply, unauthorized_response, unauthorized_response_without_challenge, forbidden_response,
  server_internal_error_response,
}

-- (caller as CC.Agent).credentials, which throws for no caller; a number has none.
abbrev pub credentials_of : Option RoutableResourceUnion → Result (Option Credentials)
credentials_of none = err type_error
credentials_of (some (agent a)) = ok a.credentials
credentials_of (some (peer p)) = ok p.credentials
credentials_of (some (number n)) = ok none

abbrev pub secret_of : Option Credentials → Secret
secret_of none = record { username = none; secret = none }
secret_of (some c) = record { username = some c.username; secret = some c.password }

abbrev pub host_asked : MessageRequest → Result String
host_asked req = do uri ← defined req.message.request_uri; ok uri.host

-- (callee as CC.INumber).trunk.ref
abbrev pub trunk_ref : RoutableResourceUnion → Result String
trunk_ref (number n) = do trunk ← defined n.trunk; ok trunk.ref
trunk_ref (agent _) = err type_error
trunk_ref (peer _) = err type_error

module _ (p : Packages) where
  abbrev pub challenge : MessageRequest → Result (Option Reply)
  challenge req = do host ← host_asked req; ok (some (unauthorized_response p.nonce host))

  abbrev pub answers : MessageRequest → Authorization → Option Credentials → Bool
  answers req auth credentials =
      calculate_auth_response p auth req.method (secret_of credentials) == auth.response

  unfoldable pub check_agent_or_peer_access :
      MessageRequest → Option RoutableResourceUnion → Result (Option Reply)
  unfolding calculate_auth_response
  check_agent_or_peer_access req caller = elim req.message.authorization [
    | none ↦ challenge req
    | some auth ↦ credentials_of caller >>= λ credentials.
        if answers req auth credentials then ok none else challenge req
  ]

  -- The block on `trunk.inboundCredentials`.
  unfoldable pub check_inbound_credentials : MessageRequest → Trunk → Result (Option Reply)
  unfolding calculate_auth_response
  check_inbound_credentials req trunk = elim trunk.inbound_credentials [
    | none ↦ ok none
    | some credentials ↦ elim req.message.authorization [
      | none ↦ challenge req
      | some auth ↦ if answers req auth (some credentials) then ok none else challenge req
    ]
  ]

  module _ (ip : IpLib) where
    -- The block on `trunk.accessControlList`, with its `try`; only the list `allow` is read.
    unfoldable pub check_access_control_list : MessageRequest → Trunk → Option Reply
    unfolding has_ip filter_r
    check_access_control_list req trunk = elim trunk.access_control_list [
      | none ↦ none
      | some acl ↦ elim (filter_r (λ net. has_ip ip net req.sender.host) acl.allow) [
        | err _ ↦ some server_internal_error_response
        | ok nets ↦
            if truthy (head? nets) then none else some unauthorized_response_without_challenge
      ]
    ]

    unfoldable pub check_trunk : MessageRequest → Trunk → Result (Option Reply)
    unfolding check_access_control_list check_inbound_credentials
    check_trunk req trunk = elim (check_access_control_list req trunk) [
      | some refusal ↦ ok (some refusal)
      | none ↦ check_inbound_credentials req trunk
    ]

    -- From the test on the callee and the trunk on.
    unfoldable pub check_callee :
        MessageRequest → Option RoutableResourceUnion → List Trunk → Result (Option Reply)
    unfolding check_trunk
    check_callee req none trunks = ok (some forbidden_response)
    check_callee req (some resource) [] = ok (some forbidden_response)
    check_callee req (some resource) (trunk ∷ _) = trunk_ref resource >>= λ ref.
        if ref == trunk.ref then check_trunk req trunk else ok (some forbidden_response)

    module _ (api : ApiClient) where
      unfoldable pub check_access_from_pstn :
          MessageRequest → Option RoutableResourceUnion → Result (Option Reply)
      unfolding check_callee
      check_access_from_pstn req callee = do
        host ← host_asked req
        trunks ← api.trunks_by_inbound_uri host
        check_callee req callee trunks

      unfoldable pub check_access :
          MessageRequest
          → Option RoutableResourceUnion
          → Option RoutableResourceUnion
          → RoutingDirection
          → Result (Option Reply)
      unfolding check_agent_or_peer_access check_access_from_pstn
      check_access req caller callee Types.peer_to_pstn = check_agent_or_peer_access req caller
      check_access req caller callee Types.agent_to_agent = check_agent_or_peer_access req caller
      check_access req caller callee Types.agent_to_pstn = check_agent_or_peer_access req caller
      check_access req caller callee Types.from_pstn = check_access_from_pstn req callee
      check_access req caller callee Types.unknown = ok (some forbidden_response)
      check_access req caller callee Types.agent_to_peer = ok none
      check_access req caller callee Types.peer_to_agent = ok none

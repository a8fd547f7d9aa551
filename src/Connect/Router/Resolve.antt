-- ===== src/Connect/Router/Resolve.antt =====
-- The first part of `router`, of mods/connect/src/router.ts: who calls whom.
use routr.Prelude.{
  String, Option, none, some, Result, ok, err, defined, ◌>>=◌, any, head?, get_or, if◌then◌else◌,
}
use routr.Sip.{MessageRequest, invite, same_method, anonymous}
use routr.Sip.Connect.{Agent, Peer, Domain, RoutableResourceUnion, agent, peer}
use routr.Processor.Extensions.{get_header_value}
use routr.Connect.Types.{ApiClient, Packages, VerifyResponse}
use routr.Connect.Responses.{Reply, server_internal_error_response, forbidden_response}
use routr.Connect.Utils.{find_domain, find_resource, has_x_connect_object_header}

-- The caller and the callee.
abbrev pub Parties : Type 0
Parties = Option RoutableResourceUnion × Option RoutableResourceUnion

pub data Resolved : Type 0 where
  parties : Parties → Resolved
  turned_away : Reply → Resolved

abbrev ephemeral : MessageRequest → VerifyResponse → Option Domain → String → String → Agent
ephemeral req payload domain ref name = record {
  ref = ref;
  name = name;
  username = anonymous;
  privacy = get_header_value req "Privacy";
  domain = domain;
  max_contacts = none;
  credentials = none;
  extended = none;
}

abbrev token_caller : MessageRequest → VerifyResponse → Option Domain → Agent
token_caller req payload domain =
    ephemeral req payload domain payload.ref
      (get_or req.message.from.address.display_name anonymous)

abbrev token_callee :
    MessageRequest → VerifyResponse → Option Domain → Option Peer → RoutableResourceUnion
token_callee req payload domain (some p) = peer p
token_callee req payload domain none = agent (ephemeral req payload domain anonymous anonymous)

-- An exception is caught, and the call is forbidden.
abbrev forbidden_on_error : Result Resolved → Resolved
forbidden_on_error (ok found) = found
forbidden_on_error (err _) = turned_away forbidden_response

module _ (api : ApiClient) where
  -- The body of the `try`, from the verification on.
  unfoldable pub resolve_token :
      (String → Result VerifyResponse) → MessageRequest → String → Result Resolved
  unfolding get_header_value
  resolve_token verify req token = verify token >>= λ payload.
      find_domain api payload.domain >>= λ domain.
      if any (λ m. same_method m invite) payload.allowed_methods
      then (do
        peers ← api.peers_by_aor payload.aor_link
        ok (
            parties (
              some (agent (token_caller req payload domain)),
              some (token_callee req payload domain (head? peers)),
            )))
      else ok (turned_away forbidden_response)

  -- The resources of the From URI and of the request URI, which throws if there is none.
  unfoldable pub resolve_uris : MessageRequest → Result Resolved
  unfolding find_resource
  resolve_uris req = do
    uri ← defined req.message.request_uri
    let from_uri = req.message.from.address.uri
    ok (
        parties
          (find_resource api from_uri.host from_uri.user, find_resource api uri.host uri.user))

module _ (p : Packages) (api : ApiClient) where
  unfoldable pub resolve : MessageRequest → Result Resolved
  unfolding resolve_token resolve_uris
  resolve req = elim (has_x_connect_object_header req) [
    | none ↦ resolve_uris api req
    | some token ↦ elim p.verify [
      | none ↦ ok (turned_away server_internal_error_response)
      | some verify ↦ ok (forbidden_on_error (resolve_token api verify req token))
    ]
  ]

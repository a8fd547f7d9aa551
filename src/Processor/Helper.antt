-- ===== src/Processor/Helper.antt =====
-- mods/processor/src/helper.ts
use routr.Prelude.{
  String, Bool, true, false, not, ◌&&◌, ◌||◌, List, [], ◌∷◌, Option, none, some, Result, ok, error,
  throw_if, ◌>>=◌, ◌>>◌, ◌==◌, string_eq, truthy, get_or, head?, template,
}
use routr.Sip.{
  MessageType, MessageRequest, NetInterface, Method, invite, ack, bye, same_method, is_ok_type,
  is_ringing_type, ws, wss,
}
use routr.Sip
use routr.Common.IpUtils.{IpLib, get_localnet_ip}
use routr.Common.Helper.{get_listening_point}

abbrev pub is_response_type : MessageType → Bool
is_response_type MessageType.request = false
is_response_type MessageType.response = true

abbrev pub is_type_response : MessageRequest → Bool
is_type_response req = is_response_type req.message.message_type

abbrev pub is_type_request : MessageRequest → Bool
is_type_request req = not (is_type_response req)

-- What `getEdgeInterface` reads of its argument.
pub record Nets : Type 0 where
  pub listening_points : List NetInterface
  pub endpoint_host : String
  pub endpoint_transport : Option String
  pub localnets : List String
  pub external_addrs : List String

abbrev is_empty : List String → Bool
is_empty [] = true
is_empty (_ ∷ _) = false

module _ (ip : IpLib) where
  -- The first address: `localnetIp ?? externalAddrs[0]`.
  abbrev pub interface_host : Option String → List String → Option String
  interface_host none external_addrs = head? external_addrs
  interface_host (some local) external_addrs = some local

  -- The two guards and the result, once the three lookups are made.
  unfoldable pub checked_interface :
      Option String → Option String → NetInterface → Nets → Result NetInterface
  checked_interface localnet_ip host lp nets = do
    throw_if (not (truthy localnet_ip) && is_empty nets.external_addrs) (
        error (
          template (
            "unable to find a valid interface for host " ∷ nets.endpoint_host ∷ " and transport "
            ∷ lp.transport ∷ [])))
    throw_if (truthy localnet_ip && not (lp.host == "0.0.0.0") && not (lp.host == get_or host "")) (
        error (
          template (
            "listening point host "
            ∷ lp.host
            ∷ " does not match interface host "
            ∷ get_or host ""
            ∷ [])))
    ok (record { host = get_or host ""; port = lp.port; transport = lp.transport })

  unfoldable pub get_edge_interface : Nets → Result NetInterface
  unfolding get_localnet_ip get_listening_point checked_interface
  get_edge_interface nets = do
    localnet_ip ← get_localnet_ip ip nets.localnets nets.endpoint_host
    lp ← get_listening_point nets.listening_points nets.endpoint_transport
    checked_interface localnet_ip (interface_host localnet_ip nets.external_addrs) lp nets

-- request.message.body?.length > 0
abbrev pub has_sdp : MessageRequest → Bool
has_sdp req = truthy req.message.body

abbrev of_response_type : (Sip.ResponseType → Bool) → Option Sip.ResponseType → Bool
of_response_type p none = false
of_response_type p (some t) = p t

abbrev pub is_ok : MessageRequest → Bool
is_ok req = of_response_type is_ok_type req.message.response_type

abbrev pub is_ringing : MessageRequest → Bool
is_ringing req = of_response_type is_ringing_type req.message.response_type

abbrev pub is_web_rtc : String → Bool
is_web_rtc transport = transport == ws || transport == wss

abbrev pub is_invite_with_sdp : MessageRequest → Bool
is_invite_with_sdp req = is_type_request req && has_sdp req && same_method req.method invite

abbrev pub is_ack_with_sdp : MessageRequest → Bool
is_ack_with_sdp req = is_type_request req && has_sdp req && same_method req.method ack

abbrev pub is_invite_or_ack_with_sdp : MessageRequest → Bool
is_invite_or_ack_with_sdp req = is_invite_with_sdp req || is_ack_with_sdp req

abbrev pub is_response_with_sdp : MessageRequest → Bool
is_response_with_sdp req = is_type_response req && has_sdp req

abbrev pub is_ok_or_ringing_with_sdp : MessageRequest → Bool
is_ok_or_ringing_with_sdp req = is_type_response req && has_sdp req && (is_ok req || is_ringing req)

abbrev pub is_bye : MessageRequest → Bool
is_bye req = is_type_request req && same_method req.method bye

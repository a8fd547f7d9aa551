-- ===== src/RtpRelay/Directions.antt =====
-- The directions of a call, of mods/rtprelay/src/utils.ts.
use routr.Prelude.{
  String, Bool, true, false, not, ◌&&◌, List, [], ◌∷◌, Option, none, some, Result, ok, defined,
  ◌>>=◌, head?, if◌then◌else◌,
}
use routr.Sip.{MessageRequest, Transport}
use routr.Processor.Helper.{is_web_rtc}

pub data Direction : Type 0 where
  web_to_web web_to_phone phone_to_web phone_to_phone : Direction

unfoldable pub get_direction : Transport → Transport → Direction
get_direction src_transport dst_transport =
    if is_web_rtc src_transport && is_web_rtc dst_transport
    then web_to_web
    else if is_web_rtc src_transport && not (is_web_rtc dst_transport)
    then web_to_phone
    else if not (is_web_rtc src_transport) && is_web_rtc dst_transport
    then phone_to_web
    else phone_to_phone

unfoldable pub get_direction_from_response : MessageRequest → Result Direction
unfolding get_direction
get_direction_from_response req = do
  via ← defined (head? req.message.via)
  ok (get_direction req.sender.transport via.transport)

-- The same, of a request.
unfoldable pub get_direction_from_request : MessageRequest → Result Direction
unfolding get_direction
get_direction_from_request req = do
  via ← defined (head? req.message.via)
  ok (get_direction req.sender.transport via.transport)

-- What the engine is asked to do to the media.
pub record RtpeParams : Type 0 where
  pub transport_protocol : Option String
  pub rtcp_mux : Option String
  pub ice : String
  pub sdes : Option (List String)
  pub flags : List String

abbrev common_flags : List String
common_flags = "trust-address" ∷ "replace-origin" ∷ "replace-session-connection" ∷ []

abbrev to_phone : RtpeParams
to_phone = record {
  transport_protocol = some "RTP/AVP";
  rtcp_mux = some "demux";
  ice = "remove";
  sdes = none;
  flags = common_flags;
}

unfoldable pub get_rtpe_params_by_direction : Direction → RtpeParams
get_rtpe_params_by_direction web_to_web = record {
  transport_protocol = none;
  rtcp_mux = none;
  ice = "force";
  sdes = some ("off" ∷ []);
  flags = common_flags;
}
get_rtpe_params_by_direction web_to_phone = to_phone
get_rtpe_params_by_direction phone_to_web = record {
  transport_protocol = some "UDP/TLS/RTP/SAVPF";
  rtcp_mux = some "require";
  ice = "force";
  sdes = some ("off" ∷ []);
  flags = "trust-address" ∷ "replace-origin" ∷ "replace-session-connection" ∷ "generate-mid" ∷ [];
}
get_rtpe_params_by_direction phone_to_phone = to_phone

unfoldable pub call_involves_web_rtc : Direction → Bool
call_involves_web_rtc web_to_phone = true
call_involves_web_rtc phone_to_web = true
call_involves_web_rtc _ = false

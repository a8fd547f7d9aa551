-- ===== src/RtpRelay.antt =====
-- mods/rtprelay/src: a middleware that has the media of a call relayed. The media engine is a
-- parameter: what it answers to each request.
pub mod Directions
pub mod Client
pub mod Outcome
use routr.Prelude.{
  String, Bool, true, false, not, ◌&&◌, ◌||◌, List, [], ◌∷◌, Option, none, some, Error, Result, ok,
  err, status, invalid_argument, ◌>>=◌, if◌then◌else◌,
}
use routr.Sip.{MessageRequest}
use routr.Processor.Helper.{
  is_type_response, is_invite_with_sdp, is_ack_with_sdp, is_invite_or_ack_with_sdp,
  is_ok_or_ringing_with_sdp, is_ringing, is_bye, is_response_with_sdp,
}
use routr.Connect.Responses.{Sent, forwarded, replied, send_internal_server_error}
use routr.RtpRelay.Directions.{
  Direction, web_to_phone, get_direction_from_request, get_direction_from_response,
}
use routr.RtpRelay.Client.{Engine, Answer, answered, failed, query, offer, answer, del}

unfoldable pub should_not_handle_request : MessageRequest → Bool
should_not_handle_request req =
    not (
      is_invite_or_ack_with_sdp req
      || is_ok_or_ringing_with_sdp req
      || is_ringing req
      || is_bye req)

abbrev pub with_body : MessageRequest → Option String → MessageRequest
with_body req body = record req { message = record req.message { body = body } }

-- What the chain of tests picks.
pub data Operation : Type 0 where
  offers : (invert_tags : Bool) → Operation
  answers : (invert_tags : Bool) → Operation
  mutes deletes passes : Operation

abbrev pub is_web_to_phone : Direction → Bool
is_web_to_phone web_to_phone = true
is_web_to_phone _ = false

unfoldable pub operation : MessageRequest → Direction → (is_new_call : Bool) → Operation
operation req direction is_new_call =
    if is_invite_with_sdp req
    then offers false
    else if is_ack_with_sdp req
    then answers true
    else if is_ringing req && is_web_to_phone direction
    then mutes
    else if is_response_with_sdp req && is_new_call
    then offers true
    else if is_response_with_sdp req
    then answers false
    else if is_bye req
    then deletes
    else passes

-- `sendRequest`, on what the engine answered.
abbrev pub send_answer : MessageRequest → Answer → Result Sent
send_answer req (answered sdp) = ok (forwarded (with_body req sdp))
send_answer req (failed reason) = err (status invalid_argument reason)

abbrev pub is_failed : Answer → Bool
is_failed (answered _) = false
is_failed (failed _) = true

module _ (engine : Engine) where
  unfoldable pub perform : Operation → MessageRequest → Result Sent
  unfolding offer answer
  perform (offers invert_tags) req = do r ← offer engine invert_tags req; send_answer req r
  perform (answers invert_tags) req = do r ← answer engine invert_tags req; send_answer req r
  perform mutes req = ok (forwarded (with_body req (some "")))
  perform deletes req = do r ← del engine req; send_answer req r
  perform passes req = ok (forwarded req)

  abbrev pub direction_of : MessageRequest → Result Direction
  direction_of req =
      if is_type_response req
      then get_direction_from_response req
      else get_direction_from_request req

  -- The body of the `try`.
  unfoldable pub relay : MessageRequest → Result Sent
  unfolding should_not_handle_request perform operation
  relay req =
      if should_not_handle_request req
      then ok (forwarded req)
      else direction_of req >>= λ direction.
          query engine req >>= λ known. perform (operation req direction (is_failed known)) req

  abbrev caught : Result Sent → Sent
  caught (ok sent) = sent
  caught (err _) = send_internal_server_error

  unfoldable pub rtp_relay : MessageRequest → Sent
  unfolding relay
  rtp_relay req = caught (relay req)

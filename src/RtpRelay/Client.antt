-- ===== src/RtpRelay/Client.antt =====
-- mods/rtprelay/src/client.ts: the requests to the media engine.
use routr.Prelude.{String, Bool, Option, none, some, Result, ◌>>=◌, if◌then◌else◌}
use routr.Sip.{MessageRequest}
use routr.RtpRelay.Directions.{
  Direction, RtpeParams, get_direction_from_request, get_direction_from_response,
  get_rtpe_params_by_direction,
}

-- RTPEFunctionResult; a deletion has no SDP.
pub data Answer : Type 0 where
  answered : (sdp : Option String) → Answer
  failed : (reason : String) → Answer

pub record RtpeRequest : Type 0 where
  pub params : Option RtpeParams
  pub sdp : Option String
  pub call_id : String
  pub from_tag : Option String
  pub to_tag : Option String

-- The client of the package rtpengine-client, which may throw.
pub record Engine : Type 0 where
  pub query : RtpeRequest → Result Answer
  pub offer : RtpeRequest → Result Answer
  pub answer : RtpeRequest → Result Answer
  pub delete : RtpeRequest → Result Answer

abbrev pub source_tag : Bool → MessageRequest → Option String
source_tag invert_tags req = if invert_tags then req.message.to.tag else some req.message.from.tag

abbrev pub target_tag : Bool → MessageRequest → Option String
target_tag invert_tags req = if invert_tags then some req.message.from.tag else req.message.to.tag

abbrev pub offer_request : Bool → MessageRequest → Direction → RtpeRequest
offer_request invert_tags req direction = record {
  params = some (get_rtpe_params_by_direction direction);
  sdp = req.message.body;
  call_id = req.message.call_id;
  from_tag = source_tag invert_tags req;
  to_tag = none;
}

abbrev pub answer_request : Bool → MessageRequest → Direction → RtpeRequest
answer_request invert_tags req direction = record {
  params = some (get_rtpe_params_by_direction direction);
  sdp = req.message.body;
  call_id = req.message.call_id;
  from_tag = source_tag invert_tags req;
  to_tag = target_tag invert_tags req;
}

module _ (engine : Engine) where
  abbrev pub query : MessageRequest → Result Answer
  query req = engine.query (record {
    params = none;
    sdp = none;
    call_id = req.message.call_id;
    from_tag = none;
    to_tag = none;
  })

  unfoldable pub offer : Bool → MessageRequest → Result Answer
  unfolding get_direction_from_request
  offer invert_tags req = do
    direction ← get_direction_from_request req
    engine.offer (offer_request invert_tags req direction)

  unfoldable pub answer : Bool → MessageRequest → Result Answer
  unfolding get_direction_from_response
  answer invert_tags req = do
    direction ← get_direction_from_response req
    engine.answer (answer_request invert_tags req direction)

  abbrev pub del : MessageRequest → Result Answer
  del req = engine.delete (record {
    params = none;
    sdp = none;
    call_id = req.message.call_id;
    from_tag = some req.message.from.tag;
    to_tag = none;
  })

-- ===== src/RtpRelay/Outcome.antt =====
-- What comes out of the relay.
use routr.Prelude.{
  String, ◌≡◌, ◌⊎◌, refl, Bool, true, false, ◌&&◌, Option, some, Result, ok, err, Bool-cases,
  Result-cases, inl, inr, ◌>>=◌, Error,
}
use routr.Sip.{MessageRequest}
use routr.Processor.Helper.{
  is_invite_with_sdp, is_ack_with_sdp, is_ringing, is_bye, is_response_with_sdp,
}
use routr.Connect.Responses.{Sent, forwarded, send_internal_server_error}
use routr.RtpRelay.Client.{Engine, Answer, answered, failed, query, offer, answer, del}
use routr.RtpRelay.Directions.{Direction}
use routr.RtpRelay.{
  operation, perform, relay, rtp_relay, direction_of, is_failed, is_web_to_phone, send_answer,
  should_not_handle_request, with_body,
}

-- The engine is asked, and answered this; or a message is sent without it.
pub data Treatment : Type 0 where
  asks : Result Answer → Treatment
  sends : MessageRequest → Treatment

module _ (engine : Engine) (req : MessageRequest) where
  abbrev pub is_muted : Direction → Bool
  is_muted direction = is_ringing req && is_web_to_phone direction

  -- How a message that the relay handles is treated, by its kind, the direction of the call, and
  -- what the engine said when it was asked whether it knows the call.
  pub data Treats (direction : Direction) (known : Answer) : Treatment → Type 0 where
    invite_with_sdp :
        is_invite_with_sdp req ≡ true → Treats direction known (asks (offer engine false req))
    ack_with_sdp :
        is_ack_with_sdp req ≡ true → Treats direction known (asks (answer engine true req))
    muted_ringing :
        is_muted direction ≡ true → Treats direction known (sends (with_body req (some "")))
    response_of_unknown_call :
        is_muted direction ≡ false
        → is_response_with_sdp req ≡ true
        → is_failed known ≡ true
        → Treats direction known (asks (offer engine true req))
    response_of_known_call :
        is_muted direction ≡ false
        → is_response_with_sdp req ≡ true
        → is_failed known ≡ false
        → Treats direction known (asks (answer engine false req))
    goodbye :
        is_bye req ≡ true
        → is_muted direction ≡ false
        → Treats direction known (asks (del engine req))
    other :
        is_invite_with_sdp req ≡ false
        → is_ack_with_sdp req ≡ false
        → is_muted direction ≡ false
        → is_response_with_sdp req ≡ false
        → is_bye req ≡ false
        → Treats direction known (sends req)

  abbrev outcome : Treatment → Result Sent
  outcome (asks r) = r >>= send_answer req
  outcome (sends out) = ok (forwarded out)

  abbrev IsTreated : Direction → Answer → Type 0
  IsTreated direction known =
      (t : Treatment) × Treats direction known t
      × (perform engine (operation req direction (is_failed known)) req ≡ outcome t)

  response-IsTreated :
      (direction : Direction) (known : Answer)
      → is_invite_with_sdp req ≡ false
      → is_ack_with_sdp req ≡ false
      → is_muted direction ≡ false
      → is_response_with_sdp req ≡ true
      → IsTreated direction known
  unfolding perform operation
  response-IsTreated direction known i a m r = elim (Bool-cases (is_failed known)) [
    | inl new ↦ (_, response_of_unknown_call m r new, rw (i, a, m, r, new) refl)
    | inr old ↦ (_, response_of_known_call m r old, rw (i, a, m, r, old) refl)
  ]

  rest-IsTreated :
      (direction : Direction) (known : Answer)
      → is_invite_with_sdp req ≡ false
      → is_ack_with_sdp req ≡ false
      → is_muted direction ≡ false
      → is_response_with_sdp req ≡ false
      → IsTreated direction known
  unfolding perform operation
  rest-IsTreated direction known i a m r = elim (Bool-cases (is_bye req)) [
    | inl b ↦ (_, goodbye b m, rw (i, a, m, r, b) refl)
    | inr b ↦ (_, other i a m r b, rw (i, a, m, r, b) refl)
  ]

  operation-IsTreated : (direction : Direction) (known : Answer) → IsTreated direction known
  unfolding perform operation
  operation-IsTreated direction known = elim (Bool-cases (is_invite_with_sdp req)) [
    | inl i ↦ (_, invite_with_sdp i, rw i refl)
    | inr i ↦ elim (Bool-cases (is_ack_with_sdp req)) [
      | inl a ↦ (_, ack_with_sdp a, rw (i, a) refl)
      | inr a ↦ elim (Bool-cases (is_muted direction)) [
        | inl m ↦ (_, muted_ringing m, rw (i, a, m) refl)
        | inr m ↦ elim (Bool-cases (is_response_with_sdp req)) [
          | inl r ↦ response-IsTreated direction known i a m r
          | inr r ↦ rest-IsTreated direction known i a m r
        ]
      ]
    ]
  ]

  -- What the engine gave is an exception or an error.
  abbrev pub IsRefused : Result Answer → Type 0
  IsRefused r = ((reason : Error) × (r ≡ err reason)) ⊎ ((text : String) × (r ≡ ok (failed text)))

  pub data IsRelayed (sent : Sent) : Type 0 where
    untouched : should_not_handle_request req ≡ true → sent ≡ forwarded req → IsRelayed sent
    answered_by_engine :
        (direction : Direction) (known : Answer) (r : Result Answer) (sdp : Option String)
        → should_not_handle_request req ≡ false
        → direction_of engine req ≡ ok direction
        → query engine req ≡ ok known
        → Treats direction known (asks r)
        → r ≡ ok (answered sdp)
        → sent ≡ forwarded (with_body req sdp)
        → IsRelayed sent
    sent_without :
        (direction : Direction) (known : Answer) (out : MessageRequest)
        → should_not_handle_request req ≡ false
        → direction_of engine req ≡ ok direction
        → query engine req ≡ ok known
        → Treats direction known (sends out)
        → sent ≡ forwarded out
        → IsRelayed sent
    refused_by_engine :
        (direction : Direction) (known : Answer) (r : Result Answer)
        → should_not_handle_request req ≡ false
        → direction_of engine req ≡ ok direction
        → query engine req ≡ ok known
        → Treats direction known (asks r)
        → IsRefused r
        → sent ≡ send_internal_server_error
        → IsRelayed sent
    without_direction :
        (reason : Error)
        → should_not_handle_request req ≡ false
        → direction_of engine req ≡ err reason
        → sent ≡ send_internal_server_error
        → IsRelayed sent
    without_query :
        (reason : Error)
        → should_not_handle_request req ≡ false
        → query engine req ≡ err reason
        → sent ≡ send_internal_server_error
        → IsRelayed sent

  module _ (handled : should_not_handle_request req ≡ false) (direction : Direction)
      (directed : direction_of engine req ≡ ok direction) (known : Answer)
      (queried : query engine req ≡ ok known) where
    abbrev performed : Result Sent
    performed = perform engine (operation req direction (is_failed known)) req

    relayed : (t : Treatment) → performed ≡ outcome t → relay engine req ≡ outcome t
    unfolding relay
    relayed t e = rw (handled, directed, queried, e) refl

    treated-IsRelayed :
        (t : Treatment)
        → Treats direction known t
        → performed ≡ outcome t
        → IsRelayed (rtp_relay engine req)
    unfolding rtp_relay
    treated-IsRelayed (sends out) treats e =
        sent_without direction known out handled directed queried treats
          (rw (relayed (sends out) e) refl)
    treated-IsRelayed (asks (err reason)) treats e =
        refused_by_engine direction known (err reason) handled directed queried treats
          (inl (reason, refl)) (rw (relayed (asks (err reason)) e) refl)
    treated-IsRelayed (asks (ok (failed text))) treats e =
        refused_by_engine direction known (ok (failed text)) handled directed queried treats
          (inr (text, refl)) (rw (relayed (asks (ok (failed text))) e) refl)
    treated-IsRelayed (asks (ok (answered sdp))) treats e =
        answered_by_engine direction known (ok (answered sdp)) sdp handled directed queried treats
          refl (rw (relayed (asks (ok (answered sdp))) e) refl)

  handled-IsRelayed : should_not_handle_request req ≡ false → IsRelayed (rtp_relay engine req)
  unfolding rtp_relay relay
  handled-IsRelayed handled = elim (Result-cases (direction_of engine req)) [
    | inr (reason, e) ↦ without_direction reason handled e (rw (handled, e) refl)
    | inl (direction, directed) ↦ elim (Result-cases (query engine req)) [
      | inr (reason, e) ↦ without_query reason handled e (rw (handled, directed, e) refl)
      | inl (known, queried) ↦
          let (t, treats, e) = operation-IsTreated direction known in
          treated-IsRelayed handled direction directed known queried t treats e
    ]
  ]

  -- A message that the relay does not handle is sent on as it is. A handled one is sent with the SDP
  -- that the engine answers: to an offer for an INVITE with SDP, to an answer with inverted tags for
  -- an ACK with SDP, to an offer with inverted tags or an answer for a response with SDP, as the
  -- engine does not or does know the call, and to a deletion for a BYE. A ringing from the web to a
  -- phone is sent with an empty body, and any other as it is, without asking for them. The answer is a
  -- server error where the direction or the query throws, or where the engine throws at that request
  -- or answers it with an error.
  pub rtp_relay-IsRelayed : IsRelayed (rtp_relay engine req)
  unfolding rtp_relay relay
  rtp_relay-IsRelayed = elim (Bool-cases (should_not_handle_request req)) [
    | inl ignored ↦ untouched ignored (rw ignored refl)
    | inr handled ↦ handled-IsRelayed handled
  ]

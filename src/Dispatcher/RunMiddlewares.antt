-- ===== src/Dispatcher/RunMiddlewares.antt =====
-- mods/dispatcher/src/run_middlewares.ts
pub mod Stops
use routr.Prelude.{
  String, Bool, true, false, List, [], ◌∷◌, Error, Result, ok, err, status, unavailable, defined,
  ◌>>=◌, template, if◌then◌else◌,
}
use routr.Prelude.Maps.{Map, lookup}
use routr.Sip.{MessageRequest, SipMessage}
use routr.Processor.Helper.{is_response_type}
use routr.Dispatcher.Types.{
  Connection, MiddlewareConfig, PartialRequest, RunMiddlewaresParams, is_unavailable,
}

abbrev pub middleware_unavailable : String → Error
middleware_unavailable ref =
    status unavailable (template ("middleware ref = " ∷ ref ∷ " is unavailable" ∷ []))

-- An error with another code resolves to the response, which is then `undefined`.
abbrev pub process_message : String → Connection → MessageRequest → Result PartialRequest
process_message middleware_ref conn req =
    if is_unavailable (conn req).code
    then err (middleware_unavailable middleware_ref)
    else defined (conn req).response

abbrev pub with_message : MessageRequest → SipMessage → MessageRequest
with_message req message = record req { message = message }

-- One middleware: look its connection up, send, and take its message over.
unfoldable pub run_one : Map Connection → MiddlewareConfig → MessageRequest → Result MessageRequest
unfolding lookup
run_one connections midd req = do
  conn ← defined (lookup midd.ref connections)
  response ← process_message midd.ref conn req
  message ← defined response.message
  ok (with_message req message)

abbrev same_stage : Bool → Bool → Bool
same_stage true b = b
same_stage false true = false
same_stage false false = true

abbrev pub applies : Bool → MiddlewareConfig → Bool
applies run_post midd = same_stage run_post midd.post_processor

-- The loop: a middleware of the other stage is skipped, a response breaks the chain, and an error
-- rejects.
unfoldable pub run_chain :
    Map Connection → Bool → List MiddlewareConfig → MessageRequest → Result MessageRequest
run_chain connections run_post [] req = ok req
run_chain connections run_post (midd ∷ middlewares) req =
    if applies run_post midd
    then (run_one connections midd req >>= λ out.
        if is_response_type out.message.message_type
        then ok out
        else run_chain connections run_post middlewares out)
    else run_chain connections run_post middlewares req

unfoldable pub run_middlewares : RunMiddlewaresParams → Result MessageRequest
unfolding run_chain run_one
run_middlewares params =
    run_chain params.connections params.run_post_processor_middlewares params.middlewares
      params.request

-- ===== src/Dispatcher/RunProcessor.antt =====
-- mods/dispatcher/src/run_processor.ts
use routr.Prelude.{
  String, [], ◌∷◌, Option, none, some, Error, Result, ok, err, status, unavailable, defined, ◌>>=◌,
  get_or, template, if◌then◌else◌,
}
use routr.Prelude.Maps.{lookup}
use routr.Sip.{MessageRequest}
use routr.Dispatcher.FindProcessor.{find_processor}
use routr.Dispatcher.Types.{PartialRequest, RunProcessorParams, is_unavailable}

abbrev pub processor_unavailable : String → Error
processor_unavailable ref =
    status unavailable (template ("processor ref = " ∷ ref ∷ " is unavailable" ∷ []))

abbrev or_keep {ℓ} : {A : Type ℓ} → Option A → Option A → Option A
or_keep none b = b
or_keep (some a) b = some a

-- `{ ...request, ...result }`; a result that is `undefined` spreads to nothing.
unfoldable pub merged : MessageRequest → Option PartialRequest → MessageRequest
merged req none = req
merged req (some r) = record {
  ref = get_or r.ref req.ref;
  edge_port_ref = get_or r.edge_port_ref req.edge_port_ref;
  method = get_or r.method req.method;
  sender = get_or r.sender req.sender;
  listening_points = get_or r.listening_points req.listening_points;
  external_addrs = get_or r.external_addrs req.external_addrs;
  localnets = get_or r.localnets req.localnets;
  message = get_or r.message req.message;
  metadata = or_keep r.metadata req.metadata;
}

unfoldable pub run_processor : RunProcessorParams → Result MessageRequest
unfolding find_processor lookup merged
run_processor params = do
  config ← find_processor params.processors params.request
  conn ← defined (lookup config.ref params.connections)
  if is_unavailable (conn params.request).code
      then err (processor_unavailable config.ref)
      else ok (merged params.request (conn params.request).response)

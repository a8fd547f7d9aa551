-- ===== src/Tests/Dispatching.antt =====
-- The dispatcher.
use routr.Prelude.{◌≡◌, refl, true, false, [], ◌∷◌, none, some, ◌>>=◌}
use routr.Sip.{MessageType, Method}
use routr.Dispatcher.FindProcessor.{ProcessorConfig, filter, find_processor}
use routr.Dispatcher.FindProcessor.FirstMatch.{IsFirstMatch, find_processor-IsFirstMatch}
use routr.Dispatcher.Types.{Connection, MiddlewareConfig}
use routr.Dispatcher.RunMiddlewares.{run_chain}
use routr.Dispatcher.RunMiddlewares.Stops.{go_on, run_chain-append}
use routr.Tests.Data.{invite}

abbrev registrar : ProcessorConfig
registrar = record {
  ref = "registrar";
  addr = "localhost:51904";
  methods = Method.register ∷ [];
  match_func = some (λ req. true);
}

abbrev connect : ProcessorConfig
connect = record registrar { ref = "connect"; methods = Method.invite ∷ Method.register ∷ [] }

find_processor-IsFirstMatch_example : IsFirstMatch (registrar ∷ connect ∷ []) invite connect
unfolding find_processor filter
find_processor-IsFirstMatch_example =
    find_processor-IsFirstMatch (registrar ∷ connect ∷ []) invite connect refl

abbrev auth_middleware : MiddlewareConfig
auth_middleware = record { ref = "auth"; addr = "localhost:51903"; post_processor = false }

-- A middleware that answers with a response of its own.
abbrev refuse : Connection
refuse req = record {
  code = none;
  response = some (record {
    ref = none;
    edge_port_ref = none;
    method = none;
    sender = none;
    listening_points = none;
    external_addrs = none;
    localnets = none;
    message = some (record invite.message { message_type = MessageType.response });
    metadata = none;
  });
}

run_chain-append_example :
    run_chain (("auth", refuse) ∷ []) false (auth_middleware ∷ auth_middleware ∷ []) invite ≡ (
      run_chain (("auth", refuse) ∷ []) false (auth_middleware ∷ []) invite
      >>= go_on (("auth", refuse) ∷ []) false (auth_middleware ∷ []))
run_chain-append_example =
    run_chain-append (("auth", refuse) ∷ []) false (auth_middleware ∷ []) (auth_middleware ∷ [])
      invite refl

-- ===== src/Dispatcher/Processor.antt =====
-- mods/dispatcher/src/processor.ts: what is handed to the callback of a call.
pub mod Stages
use routr.Prelude.{Bool, true, false, not, ◌&&◌, List, Result, ok, ◌>>=◌, if◌then◌else◌}
use routr.Prelude.Maps.{Map}
use routr.Sip.{MessageRequest}
use routr.Processor.Helper.{is_type_response, is_ok, is_ringing}
use routr.Dispatcher.FindProcessor.{ProcessorConfig}
use routr.Dispatcher.Types.{Connection, MiddlewareConfig}
use routr.Dispatcher.RunMiddlewares.{run_middlewares}
use routr.Dispatcher.RunProcessor.{run_processor}

abbrev pub is_error_response : MessageRequest → Bool
is_error_response req = is_type_response req && not (is_ok req) && not (is_ringing req)

-- The configuration, with the connections that `connectToBackend` has opened.
pub record Dispatcher : Type 0 where
  pub processors : List ProcessorConfig
  pub middlewares : List MiddlewareConfig
  pub proc_conns : Map Connection
  pub midd_conns : Map Connection

module _ (d : Dispatcher) where
  abbrev pub through_processor : MessageRequest → Result MessageRequest
  through_processor req =
      run_processor
        (record { connections = d.proc_conns; processors = d.processors; request = req })

  abbrev pub through_middlewares : Bool → MessageRequest → Result MessageRequest
  through_middlewares run_post req = run_middlewares (record {
    connections = d.midd_conns;
    middlewares = d.middlewares;
    request = req;
    run_post_processor_middlewares = run_post;
  })

  -- Each test is on `request`, the one that came in.
  unfoldable pub processor : MessageRequest → Result MessageRequest
  unfolding run_processor run_middlewares
  processor request =
      if is_error_response request
      then through_processor request
      else through_middlewares false request >>= λ pre_processor_request.
          if is_error_response request
          then ok pre_processor_request
          else through_processor pre_processor_request >>= λ processed_request.
              if is_error_response request
              then ok processed_request
              else through_middlewares true processed_request

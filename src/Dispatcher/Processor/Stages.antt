-- ===== src/Dispatcher/Processor/Stages.antt =====
-- The stages that a request goes through.
use routr.Prelude.{◌≡◌, true, false, ◌>>=◌}
use routr.Sip.{MessageRequest}
use routr.Dispatcher.Processor.{
  Dispatcher, is_error_response, processor, through_middlewares, through_processor,
}

-- Every message but an error response goes through the middlewares of the first stage, a processor
-- and the middlewares of the second stage, whatever a stage made of it: an error response of a
-- middleware is given to a processor all the same.
processor_stages :
    (d : Dispatcher) (req : MessageRequest)
    → is_error_response req ≡ false
    → processor d req ≡ (
        through_middlewares d false req >>= λ pre.
        through_processor d pre >>= λ processed. through_middlewares d true processed)
unfolding processor
processor_stages d req h = rw h

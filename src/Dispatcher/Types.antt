-- ===== src/Dispatcher/Types.antt =====
-- mods/dispatcher/src/types.ts. A connection is what a remote processor answers to a request: the
-- code of its error, if there is one, and its response.
use routr.Prelude.{String, Bool, true, false, List, Option, some, GrpcStatus, unavailable}
use routr.Prelude.Maps.{Map}
use routr.Sip.{Method, MessageRequest, NetInterface, SipMessage, Parameters}
use routr.Dispatcher.FindProcessor.{ProcessorConfig}

pub record MiddlewareConfig : Type 0 where
  pub ref : String
  pub addr : String
  pub post_processor : Bool

-- The properties that a response sets.
pub record PartialRequest : Type 0 where
  pub ref : Option String
  pub edge_port_ref : Option String
  pub method : Option Method
  pub sender : Option NetInterface
  pub listening_points : Option (List NetInterface)
  pub external_addrs : Option (List String)
  pub localnets : Option (List String)
  pub message : Option SipMessage
  pub metadata : Option Parameters

pub record Answer : Type 0 where
  pub code : Option GrpcStatus
  pub response : Option PartialRequest

abbrev pub Connection : Type 0
Connection = MessageRequest → Answer

-- err?.code === grpc.status.UNAVAILABLE
abbrev pub is_unavailable : Option GrpcStatus → Bool
is_unavailable (some unavailable) = true
is_unavailable _ = false

pub record RunProcessorParams : Type 0 where
  pub connections : Map Connection
  pub processors : List ProcessorConfig
  pub request : MessageRequest

pub record RunMiddlewaresParams : Type 0 where
  pub connections : Map Connection
  pub middlewares : List MiddlewareConfig
  pub request : MessageRequest
  pub run_post_processor_middlewares : Bool

-- ===== src/EdgePort/ServerProperties.antt =====
-- mods/edgeport/src/server_properties.ts: the properties that the SIP stack is made with. A value
-- that is missing in the configuration is none.
use routr.Prelude.{String, List, [], ◌∷◌, ◌++◌, Option, none, some}
use routr.Prelude.Splits.{comma, join}

pub record SecurityClient : Type 0 where
  pub auth_type : String
  pub protocols : List String

pub record SecurityContext : Type 0 where
  pub key_store : String
  pub trust_store : String
  pub key_store_password : String
  pub trust_store_password : String
  pub key_store_type : String
  pub client : Option SecurityClient

abbrev pub Properties : Type 0
Properties = List (String × Option String)

-- securityContext.client?.protocols.join()
abbrev client_protocols : Option SecurityClient → Option String
client_protocols none = none
client_protocols (some client) = some (join comma client.protocols)

abbrev client_auth_type : Option SecurityClient → Option String
client_auth_type none = none
client_auth_type (some client) = some client.auth_type

unfoldable pub security_properties : Option SecurityContext → Properties
unfolding join
security_properties none = []
security_properties (some context) =
    ("gov.nist.javax.sip.TLS_CLIENT_PROTOCOLS", client_protocols context.client)
    ∷ ("gov.nist.javax.sip.TLS_CLIENT_AUTH_TYPE", client_auth_type context.client)
    ∷ ("javax.net.ssl.keyStore", some context.key_store)
    ∷ ("javax.net.ssl.trustStore", some context.trust_store)
    ∷ ("javax.net.ssl.keyStorePassword", some context.key_store_password)
    ∷ ("javax.net.ssl.trustStorePassword", some context.trust_store_password)
    ∷ ("javax.net.ssl.keyStoreType", some context.key_store_type)
    ∷ []

abbrev pub stack_properties : Properties
stack_properties =
    ("javax.sip.STACK_NAME", some "routr")
    ∷ ("javax.sip.AUTOMATIC_DIALOG_SUPPORT", some "OFF")
    ∷ (
      "gov.nist.javax.sip.MESSAGE_PROCESSOR_FACTORY",
      some "gov.nist.javax.sip.stack.NioMessageProcessorFactory",
    )
    ∷ ("gov.nist.javax.sip.PATCH_SIP_WEBSOCKETS_HEADERS", some "false")
    ∷ ("gov.nist.javax.sip.CACHE_CLIENT_CONNECTIONS", some "true")
    ∷ ("gov.nist.javax.sip.REENTRANT_LISTENER", some "false")
    ∷ ("gov.nist.javax.sip.THREAD_POOL_SIZE", some "16")
    ∷ ("gov.nist.javax.sip.NIO_BLOCKING_MODE", some "NONBLOCKING")
    ∷ ("gov.nist.javax.sip.MAX_MESSAGE_SIZE", some "1048576")
    ∷ ("gov.nist.javax.sip.LOG_MESSAGE_CONTENT", some "true")
    ∷ ("gov.nist.javax.sip.DELIVER_UNSOLICITED_NOTIFY", some "true")
    ∷ []

-- In the order in which they are set; `bind_addr` is the default host.
abbrev pub get_server_properties : String → Option SecurityContext → Properties
get_server_properties bind_addr context =
    stack_properties ++ ("javax.sip.IP_ADDRESS", some bind_addr) ∷ security_properties context

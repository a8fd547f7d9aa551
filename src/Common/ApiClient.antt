-- ===== src/Common/ApiClient.antt =====
-- mods/common/src/connect/api/client.ts: the client of the data services. The stub that gRPC makes,
-- and the coding of JSON by the package pb-util, are parameters. The metadata and the credentials of
-- a call are part of the stub. That create and update leave the coded JSON in the request of their
-- caller is not modelled.
use routr.Prelude.{
  ℕ, String, ◌≡◌, refl, ap, Bool, List, [], ◌∷◌, map, Option, none, some, Error, error, status,
  unavailable, ok, err, template, if◌then◌else◌,
}
use routr.Prelude.Exec.{Exec, pure, throw, attempt, ◌>>=◌}

-- What is sent or received: its own fields, and the JSON of `extended`.
pub record Message (F J : Type 0) : Type 0 where
  pub fields : F
  pub extended : Option J

pub record ListRequest : Type 0 where
  pub page_size : ℕ
  pub page_token : String

pub record ListResponse (R : Type 0) : Type 0 where
  pub items : List R
  pub next_page_token : String

pub record FindByRequest : Type 0 where
  pub field_name : String
  pub field_value : String

-- createConnectClient({ kind, apiAddr, credentials }), and what the service answers: an error, or a
-- response, whose items gRPC makes a list.
pub record ConnectClient (S F J : Type 0) : Type 0 where
  pub create : Message F J → Exec S (Message F J)
  pub update : Message F J → Exec S (Message F J)
  pub get : String → Exec S (Message F J)
  pub list : ListRequest → Exec S (ListResponse (Message F J))
  pub find_by : FindByRequest → Exec S (List (Message F J))
  pub delete : String → Exec S (Unit {0})

abbrev secure_text : Bool → String
secure_text is_secure = if is_secure then "true" else "false"

abbrev pub client_connection_error : String → Bool → Error
client_connection_error address is_secure = error (
    template (
      "Cannot connect to service [service address = "
      ∷ address
      ∷ ", tlsOn = "
      ∷ secure_text is_secure
      ∷ "]"
      ∷ []))

unfoldable pub fire : Error → String → Bool → Error
fire (status unavailable _) api_addr is_secure = client_connection_error api_addr is_secure
fire e api_addr is_secure = e

abbrev coded_extended : {J : Type 0} → (J → J) → Option J → Option J
coded_extended code none = none
coded_extended code (some extended) = some (code extended)

abbrev coded : {F J : Type 0} → (J → J) → Message F J → Message F J
coded code m = record m { extended = coded_extended code m.extended }

decoded_encoded :
    {J : Type 0} (encode decode : J → J)
    → ((j : J) → decode (encode j) ≡ j)
    → (extended : Option J) → coded_extended decode (coded_extended encode extended) ≡ extended
decoded_encoded encode decode decodes none = refl
decoded_encoded encode decode decodes (some j) = ap some (decodes j)

abbrev fired : {S A : Type 0} → String → Bool → Exec S A → Exec S A
fired api_addr is_secure call = attempt call (λ e. throw (fire e api_addr is_secure))

module _ {S F J : Type 0} (encode decode : J → J) (api_addr : String) (is_secure : Bool) where
  unfoldable pub service_api : ConnectClient S F J → ConnectClient S F J
  unfolding fire
  service_api client = record {
    create = λ request.
        fired api_addr is_secure (client.create (coded encode request)) >>= λ response.
        pure (coded decode response);
    update = λ request.
        fired api_addr is_secure (client.update (coded encode request)) >>= λ response.
        pure (coded decode response);
    get = λ ref.
        fired api_addr is_secure (client.get ref) >>= λ response. pure (coded decode response);
    list = λ request. fired api_addr is_secure (client.list request) >>= λ response.
        pure (record response { items = map (coded decode) response.items });
    find_by = λ request. fired api_addr is_secure (client.find_by request) >>= λ items.
        pure (map (coded decode) items);
    delete = λ ref. fired api_addr is_secure (client.delete ref);
  }

  -- A service that cannot be reached is an error that names its address, and has no code.
  service_api-unavailable :
      (client : ConnectClient S F J) (ref message : String) (s s' : S)
      → client.get ref s ≡ (err (status unavailable message), s')
      → (service_api client).get ref s ≡ (err (client_connection_error api_addr is_secure), s')
  unfolding service_api fire
  service_api-unavailable client ref message s s' h = rw h refl

  -- What a service answers with what it was sent comes back as it was given, `extended` included.
  service_api-echo :
      ((j : J) → decode (encode j) ≡ j)
      → (client : ConnectClient S F J) (request : Message F J) (s s' : S)
      → client.create (coded encode request) s ≡ (ok (coded encode request), s')
      → (service_api client).create request s ≡ (ok request, s')
  unfolding service_api
  service_api-echo decodes client request s s' h =
      rw (h, decoded_encoded encode decode decodes request.extended) refl

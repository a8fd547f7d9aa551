-- ===== src/Registry/Service.antt =====
-- mods/registry/src/service.ts and mods/registry/src/utils.ts: one round of the interval.
pub mod Rounds
use routr.Prelude.{
  show_number, ℕ, ℤ, pos, String, Bool, true, false, not, List, [], ◌∷◌, map, Option, none, some,
  Error, Result, ok, err, defined, ◌>>=◌, ◌==◌, string_eq, any, filter, head?, get_or, template,
  if◌then◌else◌,
}
use routr.Prelude.Int.{◌-ℤ◌}
use routr.Prelude.Exec.{Exec, continue}
use routr.Sip.{SipMessage, ResponseType, is_ok_type}
use routr.Sip
use routr.Sip.Connect.{Trunk, Credentials}
use routr.Registry.Types.{
  RegistrationEntry, RegistrationEntryStatus, registered, quarantine, RegistryConfig, RequestParams,
  RegistrationRequest, SendMessageResponse, Packages, default_expires,
}
use routr.Registry.Store.{MemoryStore, put, list}
use routr.Registry.Request.{create_registration_request}

abbrev pub default_registration_interval : ℤ
default_registration_interval = pos 60

abbrev username_of : Option Credentials → Option String
username_of none = none
username_of (some c) = some c.username

abbrev password_of : Option Credentials → Option String
password_of none = none
password_of (some c) = some c.password

unfoldable pub registration_request_input_from_trunk :
    Packages → Trunk → RegistryConfig → Result RequestParams
registration_request_input_from_trunk p trunk config = do
  uris ← defined trunk.uris
  uri ← defined (head? uris)
  edge_port ← defined (head? config.edge_ports)
  ok (record {
    user = uri.user;
    trunk_ref = trunk.ref;
    target_domain = uri.host;
    target_address = template (uri.host ∷ ":" ∷ show_number uri.port ∷ []);
    proxy_address = edge_port.address;
    transport = uri.transport;
    user_agent = none;
    methods = config.methods;
    max_forwards = none;
    expires = none;
    secure = none;
    auth = record {
      username = username_of trunk.outbound_credentials;
      secret = password_of trunk.outbound_credentials;
    };
  })

abbrev pub is_stored : List RegistrationEntry → Trunk → Bool
is_stored entries trunk = any (λ entry. entry.trunk_ref == trunk.ref) entries

-- trunks.filter((trunk) => !trunksInStore.includes(trunk.ref)); `getUnregisteredTrunks` is the same.
unfoldable pub get_unregistered_trunks : ℤ → MemoryStore → List Trunk → List Trunk
unfolding list
get_unregistered_trunks now store trunks =
    filter (λ trunk. not (is_stored (list now store) trunk)) trunks

-- sendRegisterMessage, the remote requester: the message it responds with.
abbrev pub Requester : Type 0
Requester = RegistrationRequest → Result SipMessage

abbrev pub respond : String → Result SipMessage → Result SendMessageResponse
respond trunk_ref (ok message) = ok (record { trunk_ref = trunk_ref; message = message })
respond trunk_ref (err reason) = err reason

module _ (p : Packages) (config : RegistryConfig) (requester : Requester) where
  abbrev send_register : Result RequestParams → Exec ℕ SendMessageResponse
  send_register (err reason) cseq = (err reason, cseq)
  send_register (ok params) cseq =
      let (made, cseq') = create_registration_request p params cseq in
      (made >>= λ request. respond request.trunk_ref (requester request), cseq')

  unfoldable pub register_trunk : Trunk → Exec ℕ SendMessageResponse
  unfolding registration_request_input_from_trunk create_registration_request
  register_trunk trunk = send_register (registration_request_input_from_trunk p trunk config)

  -- Promise.allSettled, of the calls that `map` starts in order.
  unfoldable pub register_all : List Trunk → ℕ → List (Result SendMessageResponse) × ℕ
  unfolding register_trunk
  register_all [] cseq = ([], cseq)
  register_all (trunk ∷ trunks) cseq =
      let (result, cseq') = register_trunk trunk cseq in
      let (results, cseq'') = register_all trunks cseq' in (result ∷ results, cseq'')

-- message.contact?.expires ?? message.expires?.expires ?? DEFAULT_EXPIRES
unfoldable pub granted_expires : SipMessage → ℤ
granted_expires message =
    get_or (elim message.contact [ none ↦ none | some contact ↦ contact.expires ])
      (get_or (elim message.expires [ none ↦ none | some expires ↦ expires.expires ])
        default_expires)

abbrev pub is_accepted : Option ResponseType → Bool
is_accepted none = false
is_accepted (some t) = is_ok_type t

module _ (config : RegistryConfig) (now : ℤ) where
  unfoldable pub entry_of : SendMessageResponse → RegistrationEntry
  unfolding granted_expires ◌-ℤ◌
  entry_of response = record {
    trunk_ref = response.trunk_ref;
    time_of_entry = now;
    retention_time_in_seconds =
        granted_expires response.message
        -ℤ get_or config.register_interval default_registration_interval;
    status = if is_accepted response.message.response_type then registered else quarantine;
  }

  -- A rejected result is logged.
  unfoldable pub store_result : Result SendMessageResponse → MemoryStore → MemoryStore
  unfolding put entry_of
  store_result (err _) store = store
  store_result (ok response) store = put now response.trunk_ref (entry_of response) store

  unfoldable pub store_results : List (Result SendMessageResponse) → MemoryStore → MemoryStore
  unfolding store_result
  store_results [] store = store
  store_results (result ∷ results) store = store_results results (store_result result store)

pub record Registry : Type 0 where
  pub store : MemoryStore
  pub cseq : ℕ

-- The callback of the interval: it lists the store at `now` and puts the entries at `done`. If the
-- trunks cannot be had, it does nothing.
unfoldable pub registration_round :
    Packages
    → RegistryConfig
    → Requester
    → (now done : ℤ) → Result (List Trunk)
    → Registry
    → Registry
unfolding get_unregistered_trunks register_all store_results
registration_round p config requester now done (err _) r = r
registration_round p config requester now done (ok trunks) r =
    let (results, cseq) =
      register_all p config requester (get_unregistered_trunks now r.store trunks) r.cseq in
    record { store = store_results config done results r.store; cseq = cseq }

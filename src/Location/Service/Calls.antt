-- ===== src/Location/Service/Calls.antt =====
-- The routes of a call: what is stored under its key, and what the next request for it finds.
use routr.Prelude.{String, [], ◌∷◌, none}
use routr.Prelude.Maps.{insert}
use routr.Location.Types.{FindRoutesRequest}
use routr.Location.MemoryStore.{MemoryStore}
use routr.Location.Service.{Location}

-- A call for an address, with no labels and no backend, as `agentToAgent` asks for one.
abbrev pub plain_request : String → String → FindRoutesRequest
plain_request aor call_id = record {
  aor = aor;
  call_id = call_id;
  session_affinity_ref = none;
  backend = none;
  labels = none;
}

abbrev poisoned : String → MemoryStore → MemoryStore
poisoned key s = record s { collections = insert key (none ∷ []) s.collections }

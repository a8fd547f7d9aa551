-- ===== src/PgData/Requests.antt =====
-- The requests to create and update resources, of mods/common/src/connect/types.ts: the fields that
-- the managers of mods/pgdata/src/mappers check. The server's descriptors have no defaults, so that
-- a field that is left out is `undefined`.
use routr.Prelude.{String, List, Option}
use routr.Validations.Checks.{Header}
use routr.Validations.Assertions.{TrunkUri}

pub record AccessControlList : Type 0 where
  pub ref : Option String
  pub name : Option String
  pub deny : Option (List String)
  pub allow : Option (List String)

pub record Credentials : Type 0 where
  pub ref : Option String
  pub name : Option String
  pub username : Option String
  pub password : Option String

pub record Agent : Type 0 where
  pub ref : Option String
  pub name : Option String
  pub username : Option String

pub record Peer : Type 0 where
  pub ref : Option String
  pub name : Option String
  pub username : Option String
  pub aor : Option String
  pub contact_addr : Option String

pub record Domain : Type 0 where
  pub ref : Option String
  pub name : Option String
  pub domain_uri : Option String

pub record Trunk : Type 0 where
  pub ref : Option String
  pub name : Option String
  pub inbound_uri : Option String
  pub uris : Option (List TrunkUri)

pub record INumber : Type 0 where
  pub ref : Option String
  pub name : Option String
  pub tel_url : Option String
  pub aor_link : Option String
  pub city : Option String
  pub country : Option String
  pub country_iso_code : Option String
  pub extra_headers : Option (List Header)
  pub session_affinity_header : Option String

pub data Request : Type 0 where
  acl : AccessControlList → Request
  credentials : Credentials → Request
  agent : Agent → Request
  peer : Peer → Request
  domain : Domain → Request
  trunk : Trunk → Request
  number : INumber → Request

abbrev pub ref_of : Request → Option String
ref_of (acl r) = r.ref
ref_of (credentials r) = r.ref
ref_of (agent r) = r.ref
ref_of (peer r) = r.ref
ref_of (domain r) = r.ref
ref_of (trunk r) = r.ref
ref_of (number r) = r.ref

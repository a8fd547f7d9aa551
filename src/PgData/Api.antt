-- ===== src/PgData/Api.antt =====
-- mods/pgdata/src/api: the handlers that write. What the database client does is a parameter.
pub mod Reads
pub mod Writes
use routr.Prelude.{
  String, Bool, true, false, Option, none, some, Error, type_error, status, GrpcStatus, not_found,
  invalid_argument, unavailable, already_exists, ◌==◌, string_eq, if◌then◌else◌, template, [], ◌∷◌,
  truthy, shown,
}
use routr.Validations.{Packages}
use routr.Validations.Assertions.{Assertion, passes, throws}
use routr.PgData.Requests.{Request, trunk, ref_of}
use routr.PgData.Managers.{Environment, valid_or_throw_create, valid_or_throw_update}

-- What the client throws: PrismaClientInitializationError, an error with a code and what its `meta`
-- names, or another one.
pub data Failure : Type 0 where
  initialization : Failure
  known : (code meta : String) → Failure
  other : Error → Failure

pub data Outcome (A : Type 0) : Type 0 where
  done : A → Outcome A
  failed : Failure → Outcome A

abbrev pub Operation : (Db A : Type 0) → Type 0
Operation Db A = Db → Outcome A × Db

-- The callback: with a value, with an error of the service, or with what was thrown.
pub data Reply (A : Type 0) : Type 0 where
  answered : A → Reply A
  refused : Error → Reply A
  passed_on : Failure → Reply A

-- The fields of a request that the managers check, what they map, and `struct` of the package pb-util
-- on the field `extended`; PgData/Mappers has the manager of every kind.
pub record Manager (Req Data Row Dto : Type 0) : Type 0 where
  pub request_of : Req → Request
  pub map_to_prisma : Req → Data
  pub map_to_dto : Row → Dto
  pub decode_extended : Req → Req
  pub encode_extended : Row → Row

-- The operations of a delegate that write, and `deleteMany` on the URIs of a trunk.
pub record Writer (Db Data Row : Type 0) : Type 0 where
  pub create_row : Data → Operation Db Row
  pub update_row : Option String → Data → Operation Db Row
  pub delete_row : Option String → Operation Db Row
  pub delete_uris : Option String → Operation Db (Unit {0})

abbrev pub service_unavailable : Error
service_unavailable = status unavailable "Service unavailable"

abbrev pub missing_dependency : String → Error
missing_dependency field =
    status invalid_argument (template ("Dependent resource doesn't exist for: " ∷ field ∷ []))

module _ {A : Type 0} where
  -- Reading `code` of `undefined` throws in the handler's `catch`: nothing is called back.
  abbrev pub catch_thrown : Option Error → Option (Reply A)
  catch_thrown none = none
  catch_thrown (some e) = some (refused e)

  abbrev pub catch_create : Failure → Reply A
  catch_create initialization = refused service_unavailable
  catch_create (known code meta) =
      if code == "P2002"
      then refused
          (status already_exists (template ("Resource already exist for field: " ∷ meta ∷ [])))
      else if code == "P2003"
      then refused (missing_dependency meta)
      else passed_on (known code meta)
  catch_create (other e) = passed_on (other e)

  abbrev pub catch_update : Option String → Failure → Reply A
  catch_update ref initialization = passed_on initialization
  catch_update ref (known code meta) =
      if code == "P2025"
      then refused (status not_found (template ("Resource not found: " ∷ shown ref ∷ [])))
      else if code == "P2003"
      then refused (missing_dependency meta)
      else passed_on (known code meta)
  catch_update ref (other e) = passed_on (other e)

-- kind === TRUNK && request.uris. The message of a domain has no `egressPolicy`, so that the test
-- for domains is never true.
abbrev pub has_uris : Request → Bool
has_uris (trunk r) = elim r.uris [ none ↦ false | some uris ↦ true ]
has_uris _ = false

module _ {Db Req Data Row Dto : Type 0} (p : Packages) (env : Environment)
    (m : Manager Req Data Row Dto) (w : Writer Db Data Row) where
  abbrev pub reply_with : (Failure → Reply Dto) → Outcome Row × Db → Option (Reply Dto) × Db
  reply_with catch (done row, db) = (some (answered (m.map_to_dto (m.encode_extended row))), db)
  reply_with catch (failed e, db) = (some (catch e), db)

  abbrev pub create_valid : Req → Assertion → Db → Option (Reply Dto) × Db
  create_valid request passes db =
      reply_with catch_create (w.create_row (m.map_to_prisma request) db)
  create_valid request (throws e) db = (catch_thrown e, db)

  unfoldable pub create : Req → Db → Option (Reply Dto) × Db
  unfolding valid_or_throw_create
  create request db =
      create_valid (m.decode_extended request)
        (valid_or_throw_create p env (m.request_of (m.decode_extended request))) db

  abbrev pub update_after : Req → Outcome (Unit {0}) × Db → Option (Reply Dto) × Db
  update_after request (done _, db) =
      reply_with (catch_update (ref_of (m.request_of request)))
        (w.update_row (ref_of (m.request_of request)) (m.map_to_prisma request) db)
  update_after request (failed e, db) = (some (catch_update (ref_of (m.request_of request)) e), db)

  abbrev pub update_valid : Req → Assertion → Db → Option (Reply Dto) × Db
  update_valid request passes db = update_after request (
      if has_uris (m.request_of request)
      then w.delete_uris (ref_of (m.request_of request)) db
      else (done tt, db))
  update_valid request (throws e) db = (catch_thrown e, db)

  unfoldable pub update : Req → Db → Option (Reply Dto) × Db
  unfolding valid_or_throw_update
  update request db =
      update_valid (m.decode_extended request)
        (valid_or_throw_update p env (m.request_of (m.decode_extended request))) db

  -- Only an initialization error is reported.
  abbrev pub after_delete : Outcome Row × Db → Reply (Unit {0}) × Db
  after_delete (failed initialization, db) = (refused service_unavailable, db)
  after_delete (failed _, db) = (answered tt, db)
  after_delete (done _, db) = (answered tt, db)

  unfoldable pub del : Option String → Db → Reply (Unit {0}) × Db
  del ref db =
      if truthy ref
      then after_delete (w.delete_row ref db)
      else (refused (status invalid_argument "parameter ref is required"), db)

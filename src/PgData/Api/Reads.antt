-- ===== src/PgData/Api/Reads.antt =====
-- mods/pgdata/src/api: the handlers that read.
use routr.Prelude.{
  ℕ, String, Bool, true, false, List, [], ◌∷◌, map, Option, none, some, status, invalid_argument,
  not_found, unknown, ◌==◌, string_eq, if◌then◌else◌, template, truthy, shown, last?,
}
use routr.PgData.Api.{
  Failure, initialization, Outcome, done, failed, Reply, answered, refused, passed_on, Manager,
  service_unavailable,
}

-- What `findMany` of a list is asked for. `skip` is 0 or 1.
pub record Page : Type 0 where
  pub take : ℕ
  pub skip : ℕ
  pub cursor : Option String

pub data Value : Type 0 where
  text : String → Value
  flag : Bool → Value

-- The operations of a delegate that read; a row has a reference.
pub record Reader (Row : Type 0) : Type 0 where
  pub find_unique : Option String → Outcome (Option Row)
  pub find_many : Page → Outcome (List Row)
  pub find_where : String → Value → Outcome (List Row)
  pub ref_of_row : Row → String

pub record ListRequest : Type 0 where
  pub page_size : ℕ
  pub page_token : Option String

pub record ListResponse (Dto : Type 0) : Type 0 where
  pub items : List Dto
  pub next_page_token : Option String

module _ {A : Type 0} where
  abbrev catch_get : Failure → Reply A
  catch_get initialization = refused service_unavailable
  catch_get _ = refused (status unknown "Unknown error")

  abbrev catch_read : Failure → Reply A
  catch_read initialization = refused service_unavailable
  catch_read e = passed_on e

abbrev pub value_of : String → Value
value_of field_value =
    if field_value == "true"
    then flag true
    else if field_value == "false"
    then flag false
    else text field_value

module _ {Req Data Row Dto : Type 0} (m : Manager Req Data Row Dto) (db : Reader Row) where
  abbrev found : Option String → Outcome (Option Row) → Reply Dto
  found ref (done (some row)) = answered (m.map_to_dto (m.encode_extended row))
  found ref (done none) =
      refused (status not_found (template ("Resource not found: " ∷ shown ref ∷ [])))
  found ref (failed e) = catch_get e

  unfoldable pub get : Option String → Reply Dto
  get ref =
      if truthy ref
      then found ref (db.find_unique ref)
      else refused (status invalid_argument "Parameter ref is required")

  abbrev found_by : Outcome (List Row) → Reply (List Row)
  found_by (done rows) = answered (map m.encode_extended rows)
  found_by (failed e) = catch_read e

  -- The rows are answered as they are: `mapToDto` is not called.
  unfoldable pub find_by : (field_name field_value : String) → Reply (List Row)
  find_by field_name field_value = found_by (db.find_where field_name (value_of field_value))

  abbrev pub page_of : ListRequest → Page
  page_of request = record {
    take = request.page_size;
    skip = if truthy request.page_token then 1 else 0;
    cursor = if truthy request.page_token then request.page_token else none;
  }

  abbrev pub last_ref : List Row → Option String
  last_ref rows = elim (last? rows) [ none ↦ none | some row ↦ some (db.ref_of_row row) ]

  abbrev pub listed : Outcome (List Row) → Reply (ListResponse Dto)
  listed (done rows) = answered (record {
    items = map (λ row. m.map_to_dto (m.encode_extended row)) rows;
    next_page_token = last_ref rows;
  })
  listed (failed e) = catch_read e

  unfoldable pub list : ListRequest → Reply (ListResponse Dto)
  list request = listed (db.find_many (page_of request))

-- ===== src/SimpleData/Api.antt =====
-- mods/simpledata/src/api.ts, and the handlers that are not there. The loaded resources have no field
-- `extended`, so that none is encoded.
use routr.Prelude.{
  String, List, [], ◌∷◌, Option, none, some, Error, Result, ok, err, status, not_found,
  invalid_argument, unimplemented, ◌==◌, string_eq, filter, find, shown, template,
}
use routr.SimpleData.Resources.{Resource, base_of}

abbrev resource_not_found : Option String → Error
resource_not_found ref = status not_found (template ("Resource not found: " ∷ shown ref ∷ []))

abbrev found : Option String → Option Resource → Result Resource
found ref none = err (resource_not_found ref)
found ref (some resource) = ok resource

-- No resources are tested for before the reference is.
unfoldable pub get : List Resource → Option String → Result Resource
get [] ref = err (resource_not_found ref)
get (r ∷ rs) none = err (status invalid_argument "parameter ref is required")
get (r ∷ rs) (some ref) = found (some ref) (find (λ x. (base_of x).ref == ref) (r ∷ rs))

-- What a template writes for the field of a resource is a parameter.
unfoldable pub find_by :
    (text_of : String → Resource → String)
    → List Resource
    → (field_name field_value : String) → List Resource
find_by text_of resources field_name field_value =
    filter (λ r. text_of field_name r == field_value) resources

-- create, update, delete and list
abbrev pub nyi : {A : Type 0} → Result A
nyi = err (
    status unimplemented "This operation is not supported/enabled in this data api implementation.")

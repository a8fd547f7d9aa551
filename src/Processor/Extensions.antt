-- ===== src/Processor/Extensions.antt =====
-- mods/processor/src/extensions.ts
use routr.Prelude.{
  String, Bool, not, List, [], ◌∷◌, ◌++◌, map, Option, none, some, ◌==◌, string_eq, find, filter,
  if◌then◌else◌, to_lower,
}
use routr.Sip.{Extension, MessageRequest}

abbrev pub with_extensions : MessageRequest → List Extension → MessageRequest
with_extensions req exts = record req { message = record req.message { extensions = exts } }

-- `ext.name.toLowerCase() === name?.toLowerCase()`, for a name that is given.
unfoldable pub is_named : String → Extension → Bool
is_named name ext = to_lower ext.name == to_lower name

-- `value || null`
abbrev pub non_empty : Option String → Option String
non_empty none = none
non_empty (some s) = if s == "" then none else some s

abbrev pub value_of : Option Extension → Option String
value_of none = none
value_of (some ext) = non_empty ext.value

unfoldable pub get_header_value : MessageRequest → String → Option String
get_header_value req name = value_of (find (is_named name) req.message.extensions)

-- `getHeaderValue` with a name that may be `undefined`, which no header has.
abbrev pub get_optional_header : MessageRequest → Option String → Option String
get_optional_header req none = none
get_optional_header req (some name) = get_header_value req name

abbrev pub update_header : MessageRequest → Extension → MessageRequest
update_header req header =
    with_extensions req
      (map (λ ext. if ext.name == header.name then header else ext) req.message.extensions)

abbrev pub add_header : MessageRequest → Extension → MessageRequest
add_header req header = with_extensions req (req.message.extensions ++ header ∷ [])

abbrev pub remove_header : MessageRequest → String → MessageRequest
remove_header req name =
    with_extensions req (filter (λ ext. not (ext.name == name)) req.message.extensions)

-- ===== src/Processor/Alterations/Headers.antt =====
-- The alterations on the extension headers and on the Authorization header.
use routr.Prelude.{
  String, Bool, not, List, [], ◌∷◌, ◌++◌, map, Option, none, some, ◌==◌, string_eq, any, filter,
  to_lower,
}
use routr.Sip.{MessageRequest, Route, Extension, HeaderModifier, is_add, is_remove}
use routr.Sip.ExtraHeader
use routr.Processor.Extensions.{with_extensions}

-- route.headers.filter(h => h.action === REMOVE).map(h => h.name.toLowerCase())
unfoldable pub headers_to_remove : List HeaderModifier → List String
unfolding to_lower
headers_to_remove headers = map (λ h. to_lower h.name) (filter (λ h. is_remove h.action) headers)

-- What is pushed for each modifier that adds.
unfoldable pub headers_to_add : List HeaderModifier → List Extension
headers_to_add headers =
    map (λ h. record { name = h.name; value = h.value }) (filter (λ h. is_add h.action) headers)

-- headersToRemove.includes(h.name.toLowerCase())
unfoldable pub is_removed : List HeaderModifier → Extension → Bool
unfolding headers_to_remove to_lower
is_removed headers ext = any (λ n. n == to_lower ext.name) (headers_to_remove headers)

abbrev altered : Option (List HeaderModifier) → List Extension → List Extension
altered none exts = exts
altered (some []) exts = exts
altered (some (h ∷ hs)) exts =
    filter (λ ext. not (is_removed (h ∷ hs) ext)) exts ++ headers_to_add (h ∷ hs)

unfoldable pub apply_x_headers : Route → MessageRequest → MessageRequest
unfolding is_removed headers_to_add
apply_x_headers route req = with_extensions req (altered route.headers req.message.extensions)

unfoldable pub add_x_edge_port_ref : MessageRequest → MessageRequest
add_x_edge_port_ref req = with_extensions req (
    record { name = ExtraHeader.edgeport_ref; value = some req.edge_port_ref }
    ∷ req.message.extensions)

-- The name is put in lower case, and the header that it is compared with is not.
unfoldable pub remove_x_edge_port_ref : MessageRequest → MessageRequest
unfolding to_lower
remove_x_edge_port_ref req =
    with_extensions req
      (filter (λ ext. not (to_lower ext.name == ExtraHeader.edgeport_ref)) req.message.extensions)

unfoldable pub remove_authorization : MessageRequest → MessageRequest
remove_authorization req = record req { message = record req.message { authorization = none } }

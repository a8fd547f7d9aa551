-- ===== src/Processor/HeaderRewrite.antt =====
-- What a reader of headers sees after the header alterations.
use routr.Prelude.{
  String, ◌≡◌, true, false, not, List, [], ◌∷◌, some, arith, eq_iff, ◌==◌, string_eq, filter, find,
  find-append, All, to_lower, to_lower-ne_X, ap, filter_of_All, any,
}
use routr.Sip.{MessageRequest, Route, Extension, HeaderModifier}
use routr.Sip.ExtraHeader
use routr.Processor.Extensions.{get_header_value, is_named, value_of, with_extensions}
use routr.Processor.Alterations.{
  apply_x_headers, headers_to_add, headers_to_remove, is_removed, remove_x_edge_port_ref,
}

-- A name that the modifiers remove is found only among those that they add.
removed-not_named :
    (hs : List HeaderModifier) (n : String) (exts : List Extension)
    → any (λ k. k == to_lower n) (headers_to_remove hs) ≡ true
    → All (λ x. is_named n x ≡ false) (filter (λ ext. not (is_removed hs ext)) exts)
unfolding is_named is_removed
removed-not_named hs n [] h = tt
removed-not_named hs n (x ∷ xs) h =
    ground (arith, removed-not_named hs n xs, eq_iff (to_lower x.name) (to_lower n))

-- If the route's modifiers remove the name `n`, in any case, a request that went through
-- `applyXHeaders` has for `n` the value of the first modifier that adds it, or none if none does.
pub get_header_value-apply_x_headers :
    (route : Route) (req : MessageRequest) (hs : List HeaderModifier) (n : String)
    → route.headers ≡ some hs
    → any (λ k. k == to_lower n) (headers_to_remove hs) ≡ true
    → get_header_value (apply_x_headers route req) n
      ≡ value_of (find (is_named n) (headers_to_add hs))
unfolding apply_x_headers get_header_value
get_header_value-apply_x_headers route req [] n e h = cc
get_header_value-apply_x_headers route req (m ∷ ms) n e h = rw e (
    ap value_of (
      find-append (is_named n)
        (filter (λ ext. not (is_removed (m ∷ ms) ext)) req.message.extensions)
        (headers_to_add (m ∷ ms)) (removed-not_named (m ∷ ms) n req.message.extensions h)))

none_named :
    (exts : List Extension)
    → All (λ ext. not (to_lower ext.name == ExtraHeader.edgeport_ref) ≡ true) exts
none_named [] = tt
none_named (x ∷ xs) = (
  ground (arith, eq_iff (to_lower x.name) "X-Edgeport-Ref", to_lower-ne_X x.name "-Edgeport-Ref"),
  none_named xs,
)

-- `removeXEdgePortRef` returns its request unchanged: no name in lower case is "X-Edgeport-Ref".
pub remove_x_edge_port_ref_lem : (req : MessageRequest) → remove_x_edge_port_ref req ≡ req
unfolding remove_x_edge_port_ref
remove_x_edge_port_ref_lem req =
    ap (with_extensions req)
      (filter_of_All _ req.message.extensions (none_named req.message.extensions))

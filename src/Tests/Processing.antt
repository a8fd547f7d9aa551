-- ===== src/Tests/Processing.antt =====
-- The alterations.
use routr.Prelude.{◌≡◌, refl, [], ◌∷◌, some, ok}
use routr.Sip.{MessageRequest, NetInterface}
use routr.Processor.Helper.{get_edge_interface}
use routr.Processor.Alterations.{
  add_self_via, apply_x_headers, remove_self_routes, remove_top_via, with_route, self_via_nets,
  is_self_route, headers_to_add,
}
use routr.Processor.Extensions.{get_header_value, is_named, value_of}
use routr.Processor.EdgeInterface.{IsEdgeInterface, get_edge_interface_sound}
use routr.Processor.SelfRoutes.{Cleans, remove_self_routes_exact}
use routr.Processor.HeaderRewrite.{get_header_value-apply_x_headers}
use routr.Prelude.{find}
use routr.Tests.Data.{ip, point, invite, modifiers, near, route_header}

alterations : Unit {0}
unfolding get_edge_interface add_self_via remove_self_routes is_self_route apply_x_headers
    get_header_value is_named remove_top_via
alterations = tt

abbrev local : NetInterface
local = record point { host = "10.0.0.0" }

get_edge_interface_sound_example : IsEdgeInterface ip (self_via_nets near invite) local
unfolding alterations
get_edge_interface_sound_example =
    get_edge_interface_sound ip (self_via_nets near invite) local refl

abbrev without_self : MessageRequest
without_self = with_route invite (route_header "192.0.2.9" ∷ [])

remove_self_routes_exact_example :
    (without_self ≡ with_route invite without_self.message.route)
    × Cleans invite invite.message.route without_self.message.route
    × (remove_self_routes without_self ≡ ok without_self)
unfolding alterations
remove_self_routes_exact_example = remove_self_routes_exact invite without_self refl

get_header_value-apply_x_headers_example :
    get_header_value (apply_x_headers near invite) "PRIVACY"
    ≡ value_of (find (is_named "PRIVACY") (headers_to_add modifiers))
unfolding alterations
get_header_value-apply_x_headers_example =
    get_header_value-apply_x_headers near invite modifiers "PRIVACY" refl refl

get_header_value_test : get_header_value (apply_x_headers near invite) "PRIVACY" ≡ some "id"
unfolding alterations
get_header_value_test = refl

-- ===== src/Connect/Tailor.antt =====
-- mods/connect/src/tailor.ts: the pipe of alterations that readies a request for its route.
pub mod Effects
use routr.Prelude.{Result, ◌>>=◌}
use routr.Sip.{MessageRequest, Route}
use routr.Common.IpUtils.{IpLib}
use routr.Processor.Alterations.{
  decrease_max_forwards, remove_authorization, remove_self_routes, remove_x_edge_port_ref,
  fix_invalid_contact, fix_request_uri, add_self_via, apply_x_headers, add_self_record_route,
  add_route_to_next_hop,
}

module _ (ip : IpLib) where
  unfoldable pub tailor : Route → MessageRequest → Result MessageRequest
  tailor route req = do
    stripped ← remove_self_routes (remove_authorization (decrease_max_forwards req))
    contacted ← fix_invalid_contact (remove_x_edge_port_ref stripped)
    aimed ← fix_request_uri route contacted
    stacked ← add_self_via ip route aimed
    recorded ← add_self_record_route ip route (apply_x_headers route stacked)
    add_route_to_next_hop route recorded

-- ===== src/Processor/Hops.antt =====
-- Via is a stack: what `addSelfVia` pushes, `removeTopVia` pops.
use routr.Prelude.{◌≡◌, ok, >>=-eq-ok, ok-injective, subst, refl}
use routr.Sip.{MessageRequest, Route}
use routr.Common.IpUtils.{IpLib}
use routr.Processor.Helper.{get_edge_interface}
use routr.Processor.Alterations.{add_self_via, remove_top_via, self_via_nets}

-- Taking the top Via off the request that `addSelfVia` returns gives back the request, whatever
-- the route and the interfaces.
remove_top_via-add_self_via :
    (ip : IpLib) (route : Route) (req out : MessageRequest)
    → add_self_via ip route req ≡ ok out
    → remove_top_via out ≡ req
unfolding add_self_via remove_top_via
remove_top_via-add_self_via ip route req out h =
    let (intf, found, e) = >>=-eq-ok (get_edge_interface ip (self_via_nets route req)) _ h in
    subst (λ o. remove_top_via o ≡ req) (ok-injective e) refl

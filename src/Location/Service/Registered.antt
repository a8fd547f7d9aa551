-- ===== src/Location/Service/Registered.antt =====
-- What a registration makes of the next call for its address, over any store that keeps the laws.
use routr.Prelude.{ℤ, String, ◌≡◌, ◌≢◌, ap, ◌∙◌, Bool, true, List, [], ◌∷◌, none, some, ok, arith}
use routr.Sip.{Route}
use routr.Location.Types.{LocatorStore, StoreLaws, AddRouteRequest, FindRoutesRequest}
use routr.Location.Service.{
  Location, add_route, find_routes, candidates, choose, label_string, call_key,
}
use Prim.Native.String.{count, ◌++◌}
use text.Mathlib.TextLemmas.{length-append}

call_key-ne : (aor call_id : String) → aor ≢ call_key aor call_id
call_key-ne aor call_id h =
    let added = length-append aor (":" ++ (call_id ++ "")) in
    let mark = length-append ":" (call_id ++ "") in let same = ap count h in omega arith

module _ {S : Type 0} (store : ℤ → LocatorStore S) {IsGood : S → Type 0}
    {is_alive : ℤ → Route → Bool} (laws : StoreLaws store IsGood is_alive) where
  -- The store after a registration that threw nothing.
  add_route-store :
      (now : ℤ) (req : AddRouteRequest) (l l' : Location S)
      → add_route (store now) req l ≡ (ok tt, l')
      → l'.store ≡ ((store now).put req.aor (some req.route) ((store now).get req.aor l.store).1).1
  unfolding add_route
  add_route-store now req l l' h = ground arith

  module _ (locale_before : String → String → Bool) where
    -- A registration that threw nothing is found by the next call for its address, with no backend
    -- and no labels, that has no routes of its own yet, at any time at which the route is alive, and
    -- is the first of those found.
    pub add_route-find_routes :
        (now later : ℤ) (req : AddRouteRequest) (call : FindRoutesRequest) (l l' : Location S)
        → call.aor ≡ req.aor
        → call.backend ≡ none
        → label_string locale_before call.labels ≡ ""
        → IsGood l.store
        → add_route (store now) req l ≡ (ok tt, l')
        → ((store later).get (call_key req.aor call.call_id) l.store).0 ≡ ok []
        → is_alive later req.route ≡ true
        → (rs : List Route) × ((find_routes (store later) locale_before call l').0
            ≡ ok (req.route ∷ rs))
    unfolding find_routes candidates choose
    add_route-find_routes now later req call l l' named plain bare good done fresh alive =
        let s1 = ((store now).get req.aor l.store).1 in
        let s2 = ((store now).put req.aor (some req.route) s1).1 in
        let good1 = laws.get_good now req.aor l.store good in
        let good2 = laws.put_good now req.aor req.route s1 good1 in
        let written : l'.store ≡ s2 = add_route-store now req l l' done in
        let key = call_key req.aor call.call_id in
        let empty : ((store later).get key s2).0 ≡ ok [] =
          laws.get_put_other now later req.aor key req.route s1 good1
            (call_key-ne req.aor call.call_id)
          ∙ laws.get_get now later req.aor key l.store good
          ∙ fresh in
        let (rs, first) = laws.get_put now later req.aor req.route s1 good1 alive in
        let found : ((store later).get req.aor ((store later).get key s2).1).0
            ≡ ok (req.route ∷ rs) =
          laws.get_get later later key req.aor s2 good2 ∙ first in
        let s3 = ((store later).get req.aor ((store later).get key s2).1).1 in
        let good3 =
          laws.get_good later req.aor ((store later).get key s2).1
            (laws.get_good later key s2 good2) in
        let kept = laws.put_done later key req.route s3 good3 in
        (rs, rw (bare, plain, named, written, empty, found, kept))

-- ===== src/Processor/SelfRoutes.antt =====
-- Which Route headers `removeSelfRoutes` takes off.
use routr.Prelude.{
  String, ◌≡◌, ◌⊎◌, ◌||◌, refl, inl, inr, true, ◌==◌, string_eq, option_eq, List, [], ◌∷◌, some, ok,
  arith, >>=-eq-ok, ap, ok-injective, subst, sym, ◌∙◌, ◌>>=◌, any, Memᴰ, filter_r_again, filter_r,
  filter, filter_r-eq-filter, holds, Bool-cases, eq_iff, eq_refl, option_beq_iff, int_eq, nat_eq,
}
use routr.Sip.{MessageRequest, RouteHeader, NetInterface}
use routr.Common.Helper.{get_listening_point}
use routr.Processor.Alterations.Via.{upper_or_udp}
use routr.Processor.Alterations.{remove_self_routes, is_self_route, not_self, with_route, local_ips}

Memᴰ_of_any : (a : String) (xs : List String) → any (λ x. x == a) xs ≡ true → Memᴰ a xs
Memᴰ_of_any a [] h = cc
Memᴰ_of_any a (x ∷ xs) h = elim (Bool-cases (x == a)) [
  | inl same ↦ Memᴰ.head (sym (ground (arith, eq_iff x a)))
  | inr other ↦ Memᴰ.tail (Memᴰ_of_any a xs (ground arith))
]

any_of_Memᴰ : (a : String) (xs : List String) → Memᴰ a xs → any (λ x. x == a) xs ≡ true
any_of_Memᴰ a [] m = elim m [ ]
any_of_Memᴰ a (x ∷ xs) (Memᴰ.head e) = rw (sym e, eq_refl a)
any_of_Memᴰ a (x ∷ xs) (Memᴰ.tail m) = ground (arith, any_of_Memᴰ a xs m)

module _ (req : MessageRequest) where
  -- The header names this server: its host is one of the addresses of the local networks or of the
  -- external addresses, and its port is that of the listening point for its transport.
  pub record IsSelf (r : RouteHeader) : Type 0 where
    pub point : NetInterface
    pub listens :
        get_listening_point req.listening_points (some (upper_or_udp r.address.uri.transport_param))
        ≡ ok point
    pub host :
        Memᴰ r.address.uri.host (local_ips req.localnets)
        ⊎ Memᴰ r.address.uri.host req.external_addrs
    pub port : r.address.uri.port ≡ some point.port

  -- What is left of a list of headers when those that name this server are taken off.
  pub data Cleans : List RouteHeader → List RouteHeader → Type 0 where
    done : Cleans [] []
    dropped :
        {r : RouteHeader} {rs out : List RouteHeader}
        → IsSelf r
        → Cleans rs out
        → Cleans (r ∷ rs) out
    left :
        {r : RouteHeader} {rs out : List RouteHeader}
        → ¬ IsSelf r
        → Cleans rs out
        → Cleans (r ∷ rs) (r ∷ out)

  is_self_route-true : (r : RouteHeader) → is_self_route req r ≡ ok true → IsSelf r
  unfolding is_self_route
  is_self_route-true r h =
      let (lp, found, h') =
        >>=-eq-ok
          (get_listening_point req.listening_points
            (some (upper_or_udp r.address.uri.transport_param)))
          _ h in
      record {
        point = lp;
        listens = found;
        host = elim (Bool-cases (any (λ ip. ip == r.address.uri.host) (local_ips req.localnets))) [
          | inl local ↦ inl (Memᴰ_of_any r.address.uri.host (local_ips req.localnets) local)
          | inr other ↦ inr (Memᴰ_of_any r.address.uri.host req.external_addrs (ground arith))
        ];
        port = (option_beq_iff int_eq r.address.uri.port (some lp.port)).0 (ground arith);
      }

  has_self_host :
      (r : RouteHeader)
      → IsSelf r
      → (any (λ ip. ip == r.address.uri.host) (local_ips req.localnets)
          || any (λ ip. ip == r.address.uri.host) req.external_addrs)
        ≡ true
  has_self_host r self = elim self.host [
    | inl m ↦ rw (any_of_Memᴰ r.address.uri.host (local_ips req.localnets) m) refl
    | inr m ↦ ground (arith, any_of_Memᴰ r.address.uri.host req.external_addrs m)
  ]

  IsSelf-is_self_route : (r : RouteHeader) → IsSelf r → is_self_route req r ≡ ok true
  unfolding is_self_route
  IsSelf-is_self_route r self =
      let same : (r.address.uri.port == some self.point.port) ≡ true =
        (option_beq_iff int_eq r.address.uri.port (some self.point.port)).1 self.port in
      rw (self.listens, has_self_host r self, same) refl

  cleaned : (rs out : List RouteHeader) → filter_r (not_self req) rs ≡ ok out → Cleans rs out
  unfolding filter_r
  cleaned [] out h = subst (Cleans []) (ok-injective h) done
  cleaned (r ∷ rs) out h =
      let (keep, tested, h1) = >>=-eq-ok (not_self req r) _ h in
      let (self, e, h2) = >>=-eq-ok (is_self_route req r) _ tested in
      let (rest, kept, h3) = >>=-eq-ok (filter_r (not_self req) rs) _ h1 in
      elim (Bool-cases self) [
        | inl named ↦
            let same : rest ≡ out = ground arith in
            dropped (is_self_route-true r (e ∙ ap ok named)) (cleaned rs out (kept ∙ ap ok same))
        | inr stays ↦
            let same : r ∷ rest ≡ out = ground arith in
            let other : ¬ IsSelf r = λ p. absurd (ground (arith, IsSelf-is_self_route r p)) in
            subst (Cleans (r ∷ rs)) same (left other (cleaned rs rest kept))
      ]

  -- As a filter of the headers.
  pub remove_self_routes-eq-filter :
      (out : MessageRequest)
      → remove_self_routes req ≡ ok out
      → out ≡ with_route req (filter (λ r. holds (not_self req r)) req.message.route)
  unfolding remove_self_routes is_self_route
  remove_self_routes-eq-filter out h =
      let (kept, e, h') = >>=-eq-ok (filter_r (not_self req) req.message.route) _ h in
      ground (arith, filter_r-eq-filter (not_self req) req.message.route e)

  -- removeSelfRoutes takes off exactly the Route headers whose host is an address of this server and
  -- whose port is that of the listening point for their transport; the others stay in their order,
  -- nothing else of the request changes, and a second removal changes nothing.
  pub remove_self_routes_exact :
      (out : MessageRequest)
      → remove_self_routes req ≡ ok out
      → (out ≡ with_route req out.message.route)
        × Cleans req.message.route out.message.route
        × (remove_self_routes out ≡ ok out)
  unfolding remove_self_routes is_self_route
  remove_self_routes_exact out h =
      let (kept, e, h') = >>=-eq-ok (filter_r (not_self req) req.message.route) _ h in
      let made : with_route req kept ≡ out = ok-injective h' in
      (
        sym made ∙ ap (λ o. with_route req o.message.route) made,
        subst (λ o. Cleans req.message.route o.message.route) made
            (cleaned req.message.route kept e),
        subst (λ o. remove_self_routes o ≡ ok o) made
            (ap (λ m. m >>= λ k. ok (with_route req k))
              (filter_r_again (not_self req) req.message.route e)),
      )

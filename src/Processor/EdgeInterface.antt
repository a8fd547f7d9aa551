-- ===== src/Processor/EdgeInterface.antt =====
-- What `getEdgeInterface` promises about the interface that it returns.
use routr.Prelude.{
  String, ◌≡◌, ◌⊎◌, refl, ap, sym, subst, ◌∙◌, inl, inr, true, false, List, [], ◌∷◌, ◌++◌, Option,
  none, some, ok, arith, All, >>=-eq-ok, ok-injective, head?, find, filter_r, split, split-head,
  truthy, get_or, Bool-cases, Option-cases, to_upper, eq_iff, string_eq,
}
use routr.Sip.{NetInterface, udp}
use routr.Common.IpUtils.{IpLib, has_ip, get_localnet_ip}
use routr.Common.Helper.{serves, get_listening_point}
use routr.Processor.Helper.{Nets, get_edge_interface, checked_interface, interface_host}

-- The first element with the property `P`; `Q` holds of those before it.
pub record IsFirst {A : Type 0} (P Q : A → Type 0) (list : List A) (a : A) : Type 0 where
  pub earlier : List A
  pub later : List A
  pub listed : list ≡ earlier ++ a ∷ later
  pub passed : All Q earlier
  pub here : P a

IsFirst-cons :
    {A : Type 0} (P Q : A → Type 0) (x : A) (list : List A) (a : A)
    → Q x
    → IsFirst P Q list a
    → IsFirst P Q (x ∷ list) a
IsFirst-cons P Q x list a q first = record {
  earlier = x ∷ first.earlier;
  later = first.later;
  listed = ap (λ l. x ∷ l) first.listed;
  passed = (q, first.passed);
  here = first.here;
}

IsFirst-head :
    {A : Type 0} (P Q : A → Type 0) (list : List A) (a : A) → P a → IsFirst P Q (a ∷ list) a
IsFirst-head P Q list a p = record {
  earlier = [];
  later = list;
  listed = refl;
  passed = tt;
  here = p;
}

-- The transport of the listening point is the one asked for, in any case, or UDP if none is.
abbrev pub Serves : Option String → NetInterface → Type 0
Serves transport lp =
    ((truthy transport ≡ true) × (to_upper lp.transport ≡ to_upper (get_or transport "")))
    ⊎ ((truthy transport ≡ false) × (to_upper lp.transport ≡ udp))

serves-Serves : (t : Option String) (lp : NetInterface) → serves t lp ≡ true → Serves t lp
unfolding serves
serves-Serves t lp h = elim (Bool-cases (truthy t)) [
  | inl given ↦
      inl (given, (eq_iff (to_upper lp.transport) (to_upper (get_or t ""))).0 (ground arith))
  | inr bare ↦ inr (bare, (eq_iff (to_upper lp.transport) udp).0 (ground arith))
]

Serves-serves : (t : Option String) (lp : NetInterface) → Serves t lp → serves t lp ≡ true
unfolding serves
Serves-serves t lp (inl (given, e)) =
    rw given ((eq_iff (to_upper lp.transport) (to_upper (get_or t ""))).1 e)
Serves-serves t lp (inr (bare, e)) = rw bare ((eq_iff (to_upper lp.transport) udp).1 e)

abbrev pub IsPoint : Option String → List NetInterface → NetInterface → Type 0
IsPoint t = IsFirst (Serves t) (λ lp. ¬ Serves t lp)

found-IsPoint :
    (t : Option String) (list : List NetInterface) (lp : NetInterface)
    → find (serves t) list ≡ some lp
    → IsPoint t list lp
found-IsPoint t [] lp h = cc
found-IsPoint t (x ∷ xs) lp h = elim (Bool-cases (serves t x)) [
  | inl hit ↦
      let same : x ≡ lp = ground arith in
      subst (λ y. IsPoint t (x ∷ xs) y) same (IsFirst-head _ _ xs x (serves-Serves t x hit))
  | inr miss ↦
      IsFirst-cons _ _ x xs lp (λ s. absurd (ground (arith, Serves-serves t x s)))
        (found-IsPoint t xs lp (ground arith))
]

listening-IsPoint :
    (t : Option String) (list : List NetInterface) (lp : NetInterface)
    → get_listening_point list t ≡ ok lp
    → IsPoint t list lp
unfolding get_listening_point
listening-IsPoint t list lp h = elim (Option-cases (find (serves t) list)) [
  | inl e ↦ absurd (ground arith)
  | inr (x, e) ↦
      found-IsPoint t list lp (e ∙ ap some (ok-injective (rw (e, get_listening_point) at h)))
]

module _ (ip : IpLib) where
  abbrev pub Has : String → String → Type 0
  Has addr net = has_ip ip net addr ≡ ok true

  abbrev pub Lacks : String → String → Type 0
  Lacks addr net = has_ip ip net addr ≡ ok false

  filter_r-IsFirst :
      (addr : String) (nets : List String) (net : String) (rest : List String)
      → filter_r (λ n. has_ip ip n addr) nets ≡ ok (net ∷ rest)
      → IsFirst (Has addr) (Lacks addr) nets net
  unfolding filter_r
  filter_r-IsFirst addr [] net rest h = cc
  filter_r-IsFirst addr (x ∷ xs) net rest h =
      let (hit, tested, h1) = >>=-eq-ok (has_ip ip x addr) _ h in
      let (others, filtered, h2) = >>=-eq-ok (filter_r (λ n. has_ip ip n addr) xs) _ h1 in
      elim (Bool-cases hit) [
        | inl hits ↦
            let same : x ≡ net = ground arith in
            subst (λ n. IsFirst (Has addr) (Lacks addr) (x ∷ xs) n) same
              (IsFirst-head _ _ xs x (tested ∙ ap ok hits))
        | inr miss ↦
            let same : others ≡ net ∷ rest = ground arith in
            IsFirst-cons _ _ x xs net (tested ∙ ap ok miss)
              (filter_r-IsFirst addr xs net rest (filtered ∙ ap ok same))
      ]

  none_matching :
      (addr : String) (nets : List String)
      → filter_r (λ n. has_ip ip n addr) nets ≡ ok []
      → All (Lacks addr) nets
  unfolding filter_r
  none_matching addr [] h = tt
  none_matching addr (x ∷ xs) h =
      let (hit, tested, h1) = >>=-eq-ok (has_ip ip x addr) _ h in
      let (others, filtered, h2) = >>=-eq-ok (filter_r (λ n. has_ip ip n addr) xs) _ h1 in
      elim (Bool-cases hit) [
        | inl hits ↦ absurd (ground arith)
        | inr miss ↦
            let same : others ≡ [] = ground arith in
            (tested ∙ ap ok miss, none_matching addr xs (filtered ∙ ap ok same))
      ]

  -- The first of the networks that has the address, up to the slash.
  abbrev pub IsLocalHost : Nets → String → Type 0
  IsLocalHost nets host =
      (net : String) × IsFirst (Has nets.endpoint_host) (Lacks nets.endpoint_host) nets.localnets
        net
      × (head? (split b'/' net) ≡ some host)

  -- None of the networks has the address.
  abbrev pub IsOutside : Nets → Type 0
  IsOutside nets = All (Lacks nets.endpoint_host) nets.localnets

  matching_lem :
      (nets : Nets) (local : Option String) (matching : List String)
      → filter_r (λ n. has_ip ip n nets.endpoint_host) nets.localnets ≡ ok matching
      → (elim (head? matching) [ none ↦ none | some net ↦ head? (split b'/' net) ]) ≡ local
      → ((local ≡ none) × IsOutside nets)
        ⊎ ((host : String) × (local ≡ some host) × IsLocalHost nets host)
  matching_lem nets local [] e h = inl (sym h, none_matching nets.endpoint_host nets.localnets e)
  matching_lem nets local (net ∷ rest) e h =
      let (host, first) = split-head b'/' net in
      let found = filter_r-IsFirst nets.endpoint_host nets.localnets net rest e in
      inr (host, sym h ∙ first, (net, found, first))

  localnet_lem :
      (nets : Nets) (local : Option String)
      → get_localnet_ip ip nets.localnets nets.endpoint_host ≡ ok local
      → ((local ≡ none) × IsOutside nets)
        ⊎ ((host : String) × (local ≡ some host) × IsLocalHost nets host)
  unfolding get_localnet_ip
  localnet_lem nets local h =
      let (matching, e, h1) =
        >>=-eq-ok (filter_r (λ n. has_ip ip n nets.endpoint_host) nets.localnets) _ h in
      matching_lem nets local matching e (ok-injective h1)

  -- The local address, which the listening point has unless it listens on every address; or the
  -- first external address, for an endpoint outside of the local networks.
  abbrev pub IsEdgeHost : Nets → NetInterface → String → Type 0
  IsEdgeHost nets point host =
      (IsLocalHost nets host × ((point.host ≡ "0.0.0.0") ⊎ (point.host ≡ host) ⊎ (host ≡ "")))
      ⊎ (IsOutside nets × (head? nets.external_addrs ≡ some host))

  pub record IsEdgeInterface (nets : Nets) (intf : NetInterface) : Type 0 where
    pub point : NetInterface
    pub listens : IsPoint nets.endpoint_transport nets.listening_points point
    pub port : intf.port ≡ point.port
    pub transport : intf.transport ≡ point.transport
    pub host : IsEdgeHost nets point intf.host

  checked_none :
      (lp : NetInterface) (nets : Nets) (intf : NetInterface)
      → checked_interface ip none (interface_host ip none nets.external_addrs) lp nets ≡ ok intf
      → (intf.port ≡ lp.port)
        × (intf.transport ≡ lp.transport)
        × (head? nets.external_addrs ≡ some intf.host)
  unfolding checked_interface
  checked_none lp nets intf h = ground arith

  checked_some :
      (a : String) (lp : NetInterface) (nets : Nets) (intf : NetInterface)
      → checked_interface ip (some a) (interface_host ip (some a) nets.external_addrs) lp nets
        ≡ ok intf
      → (intf.port ≡ lp.port)
        × (intf.transport ≡ lp.transport)
        × (intf.host ≡ a)
        × ((lp.host ≡ "0.0.0.0") ⊎ (lp.host ≡ a) ⊎ (a ≡ ""))
  unfolding checked_interface
  checked_some a lp nets intf h =
      ground (arith, eq_iff lp.host "0.0.0.0", eq_iff lp.host a, eq_iff a "")

  -- The interface has the port and the transport of the first listening point whose transport is
  -- the endpoint's, in any case, or UDP where the endpoint has none. Its host is the part before the
  -- slash of the first local network that has the endpoint, and then the listening point listens on
  -- that address or on 0.0.0.0, unless that part is empty; or, if no local network has the endpoint,
  -- the first external address.
  pub get_edge_interface_sound :
      (nets : Nets) (intf : NetInterface)
      → get_edge_interface ip nets ≡ ok intf
      → IsEdgeInterface nets intf
  unfolding get_edge_interface
  get_edge_interface_sound nets intf h =
      let (local, looked, h') =
        >>=-eq-ok (get_localnet_ip ip nets.localnets nets.endpoint_host) _ h in
      let (lp, found, h'') =
        >>=-eq-ok (get_listening_point nets.listening_points nets.endpoint_transport) _ h' in
      let listens = listening-IsPoint nets.endpoint_transport nets.listening_points lp found in
      elim (localnet_lem nets local looked) [
        | inl (nowhere, outside) ↦
            let (port, transport, host) = checked_none lp nets intf (rw nowhere at h'') in
            record {
              point = lp;
              listens = listens;
              port = port;
              transport = transport;
              host = inr (outside, host);
            }
        | inr (a, somewhere, inside) ↦
            let (port, transport, host, agrees) =
              checked_some a lp nets intf (rw somewhere at h'') in
            record {
              point = lp;
              listens = listens;
              port = port;
              transport = transport;
              host = rw host (inl (inside, agrees));
            }
      ]

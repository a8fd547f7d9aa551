-- ===== src/Common/IpUtils.antt =====
-- mods/common/src/ip_utils.ts. The package ip-utils is a parameter: `subnet(net).contains(addr)`
-- may throw, and so do `subnetInfo` and `cidrInfo`, which are handed a mask.
use routr.Prelude.{
  String, Bool, List, [], ◌∷◌, Option, none, some, Result, ok, err, error, ◌>>=◌, filter_r,
  if◌then◌else◌, split, template, head?,
}

pub record IpLib : Type 0 where
  pub is_valid_ipv4 : String → Bool
  pub is_valid_ipv6 : String → Bool
  -- subnetInfo(p1, p2).cidrMask
  pub cidr_mask : String → String → Result String
  -- subnet(net).contains(addr)
  pub contains : String → String → Result Bool

module _ (ip : IpLib) where
  unfoldable pub format_net : String → Result String
  unfolding split
  format_net net = elim (split b'/' net) [
    | [] ↦ err (error "Invalid address! Must be a valid Ipv4 or Ipv6")
    | p1 ∷ rest ↦ elim rest [
      | [] ↦
          if ip.is_valid_ipv4 net
          then ok (template (net ∷ "/32" ∷ []))
          else if ip.is_valid_ipv6 net
          then ok (template (net ∷ "/128" ∷ []))
          else err (error "Invalid address! Must be a valid Ipv4 or Ipv6")
      | p2 ∷ _ ↦
          if ip.is_valid_ipv4 p2
          then (do mask ← ip.cidr_mask p1 p2; ok (template (p1 ∷ "/" ∷ mask ∷ [])))
          else ok (template (p1 ∷ "/" ∷ p2 ∷ []))
    ]
  ]

  unfoldable pub has_ip : String → String → Result Bool
  unfolding format_net
  has_ip net addr = do formatted ← format_net net; ip.contains formatted addr

  -- nets?.filter((net) => hasIp(net, addr))[0]?.split("/")[0]
  unfoldable pub get_localnet_ip : List String → String → Result (Option String)
  unfolding has_ip filter_r split
  get_localnet_ip nets addr = do
    matching ← filter_r (λ net. has_ip net addr) nets
    ok (elim (head? matching) [ none ↦ none | some net ↦ head? (split b'/' net) ])

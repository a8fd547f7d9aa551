-- ===== src/SimpleData/Loaders.antt =====
-- mods/simpledata/src/loaders and mods/simpledata/src/utils.ts. The loaders call each other through
-- `findByRef`, without a bound: here it is the fuel.
pub mod Depth
pub mod Links
pub mod Typed
use routr.Prelude.{
  ℕ, zero, suc, ◌+◌, ℤ, pos, negsuc, String, Bool, true, false, not, ◌&&◌, List, [], ◌∷◌, map,
  Option, none, some, Error, type_error, ◌==◌, string_eq, any, filter, find, flat, if◌then◌else◌,
  includes,
}
use routr.SimpleData.Configs
use routr.SimpleData.Configs.{ConfigBase, UserConfig, EgressPolicyConfig, base_of}
use routr.SimpleData.Resources
use routr.SimpleData.Resources.{Resource, Link, null, to, Policies, no_policies, end, policy}
use routr.SimpleData.Mappers.{
  Loaded, loaded, exits, throws, out_of_fuel, ◌>>=◌, ◌>>◌, assert_valid_schema, map_base,
  map_to_acl, map_to_credentials, map_to_agent, map_to_peer, map_to_domain, map_to_number,
  map_to_trunk,
}

abbrev pub has_ref : String → UserConfig → Bool
has_ref ref config = (base_of config).ref == ref

unfoldable pub has_space : UserConfig → Bool
unfolding includes
has_space config = includes (base_of config).ref " "

abbrev pub has_duplicates : List UserConfig → Bool
has_duplicates [] = false
has_duplicates (c ∷ cs) = if any (has_ref (base_of c).ref) cs then true else has_duplicates cs

-- maxContacts || -1
abbrev pub or_no_limit : Option ℤ → Option ℤ
or_no_limit (some (pos (suc n))) = some (pos (suc n))
or_no_limit (some (negsuc n)) = some (negsuc n)
or_no_limit _ = some (negsuc 0)

abbrev pub inbound_credentials : Configs.TrunkConfig → Option String
inbound_credentials c = elim c.inbound [ none ↦ none | some i ↦ i.credentials_ref ]

abbrev pub outbound_credentials : Configs.TrunkConfig → Option String
outbound_credentials c = elim c.outbound [ none ↦ none | some o ↦ o.credentials_ref ]

abbrev pub inbound_rules : Configs.TrunkConfig → Option String
inbound_rules c = elim c.inbound [ none ↦ none | some i ↦ i.access_control_list_ref ]

-- The policies of a domain, with what their references are found to be.
module _ (find_by : Option String → Loaded Link) where
  abbrev pub link_each : List EgressPolicyConfig → Loaded Policies
  link_each [] = loaded end
  link_each (p ∷ ps) = do
    number ← find_by p.number_ref
    rest ← link_each ps
    loaded (policy p.rule p.number_ref number rest)

  abbrev pub link_policies : Option (List EgressPolicyConfig) → Loaded Policies
  link_policies none = loaded no_policies
  link_policies (some ps) = link_each ps

module _ (is_valid : UserConfig → Bool) (now : ℤ) where
  abbrev pub acl_loader : Configs.AccessControlListConfig → Loaded Resource
  acl_loader c = do
    assert_valid_schema is_valid (UserConfig.acl c)
    loaded (Resource.acl (map_base now c.base) (map_to_acl c))

  abbrev pub credentials_loader : Configs.CredentialsConfig → Loaded Resource
  credentials_loader c = do
    assert_valid_schema is_valid (UserConfig.credentials c)
    loaded (Resource.credentials (map_base now c.base) (map_to_credentials c))

  abbrev pub agent_loader : (Option String → Loaded Link) → Configs.AgentConfig → Loaded Resource
  agent_loader find_by c = do
    assert_valid_schema is_valid (UserConfig.agent c)
    domain ← find_by c.domain_ref
    credentials ← find_by c.credentials_ref
    let agent = map_to_agent c in
        loaded (
          Resource.agent (map_base now c.base)
            (record agent { max_contacts = or_no_limit agent.max_contacts }) domain credentials)

  abbrev pub peer_loader : (Option String → Loaded Link) → Configs.PeerConfig → Loaded Resource
  peer_loader find_by c = do
    assert_valid_schema is_valid (UserConfig.peer c)
    credentials ← find_by c.credentials_ref
    let peer = map_to_peer c in
        loaded (
          Resource.peer (map_base now c.base)
            (record peer { max_contacts = or_no_limit peer.max_contacts }) credentials)

  abbrev pub domain_loader : (Option String → Loaded Link) → Configs.DomainConfig → Loaded Resource
  domain_loader find_by c = do
    egress_policies ← link_policies find_by c.egress_policies
    assert_valid_schema is_valid (UserConfig.domain c)
    access_control_list ← find_by c.access_control_list_ref
    loaded (
        Resource.domain (map_base now c.base) (map_to_domain c) egress_policies access_control_list)

  abbrev pub number_loader : (Option String → Loaded Link) → Configs.NumberConfig → Loaded Resource
  number_loader find_by c = do
    assert_valid_schema is_valid (UserConfig.number c)
    trunk ← find_by c.trunk_ref
    loaded (Resource.number (map_base now c.base) (map_to_number c) trunk)

  abbrev pub trunk_loader : (Option String → Loaded Link) → Configs.TrunkConfig → Loaded Resource
  trunk_loader find_by c = do
    assert_valid_schema is_valid (UserConfig.trunk c)
    inbound ← find_by (inbound_credentials c)
    outbound ← find_by (outbound_credentials c)
    rules ← find_by (inbound_rules c)
    loaded (Resource.trunk (map_base now c.base) (map_to_trunk c) inbound outbound rules)

  -- A loader, by the kind of the entry. There is none for an unknown kind.
  abbrev pub load_with : (Option String → Loaded Link) → UserConfig → Loaded Resource
  load_with find_by (UserConfig.acl c) = acl_loader c
  load_with find_by (UserConfig.credentials c) = credentials_loader c
  load_with find_by (UserConfig.agent c) = agent_loader find_by c
  load_with find_by (UserConfig.peer c) = peer_loader find_by c
  load_with find_by (UserConfig.domain c) = domain_loader find_by c
  load_with find_by (UserConfig.number c) = number_loader find_by c
  load_with find_by (UserConfig.trunk c) = trunk_loader find_by c
  load_with find_by (UserConfig.unknown c) = throws type_error

  module _ (list : List UserConfig) where
    abbrev pub link_to : (UserConfig → Loaded Resource) → Option UserConfig → Loaded Link
    link_to load none = exits
    link_to load (some config) = load config >>= λ resource. loaded (to resource)

    -- Every entry has a reference, so that none is found for `undefined`.
    abbrev pub find_by_ref : (UserConfig → Loaded Resource) → Option String → Loaded Link
    find_by_ref load none = loaded null
    find_by_ref load (some ref) = link_to load (find (has_ref ref) list)

    unfoldable pub load : ℕ → UserConfig → Loaded Resource
    load zero config = out_of_fuel
    load (suc fuel) config = load_with (find_by_ref (load fuel)) config

    unfoldable pub load_all : ℕ → List UserConfig → Loaded (List Resource)
    unfolding load
    load_all fuel [] = loaded []
    load_all fuel (c ∷ cs) = do
      resource ← load fuel c
      rest ← load_all fuel cs
      loaded (resource ∷ rest)

  -- The entries of the files, in order; `of_kind` is whether an entry is of the kind asked for.
  unfoldable pub load_resources :
      ℕ → (of_kind : UserConfig → Bool) → List (List UserConfig) → Loaded (List Resource)
  unfolding load_all has_space
  load_resources fuel of_kind files =
      if any has_space (flat files)
      then exits
      else if has_duplicates (flat files)
      then exits
      else load_all (flat files) fuel (filter of_kind (flat files))

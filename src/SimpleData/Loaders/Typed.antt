-- ===== src/SimpleData/Loaders/Typed.antt =====
-- The kinds of what is loaded: the casts that the loaders of mods/simpledata/src/loaders make of what
-- findByRef gives.
use routr.Prelude.{
  ℕ, zero, suc, ℤ, String, ◌≡◌, refl, ◌∙◌, subst, Bool, List, [], ◌∷◌, Option, none, some, find,
  string_eq, arith, All, Bool-cases, inl, inr,
}
use routr.SimpleData.Configs.{UserConfig, EgressPolicyConfig}
use routr.SimpleData.Resources.{Resource, Link, null, to, Policies, no_policies, end, policy}
use routr.SimpleData.Mappers.{Loaded, loaded, assert_valid_schema}
use routr.SimpleData.Loaders.{
  has_ref, load_with, link_to, link_each, link_policies, find_by_ref, load, inbound_credentials,
  outbound_credentials, inbound_rules,
}
use routr.SimpleData.Loaders.Links.{>>=-loaded, loaded-injective}

pub data Kind : Type 0 where
  acl credentials agent peer domain number trunk unknown : Kind

abbrev pub config_kind : UserConfig → Kind
config_kind (UserConfig.acl _) = acl
config_kind (UserConfig.credentials _) = credentials
config_kind (UserConfig.agent _) = agent
config_kind (UserConfig.peer _) = peer
config_kind (UserConfig.domain _) = domain
config_kind (UserConfig.number _) = number
config_kind (UserConfig.trunk _) = trunk
config_kind (UserConfig.unknown _) = unknown

abbrev pub kind_of : Resource → Kind
kind_of (Resource.acl _ _) = acl
kind_of (Resource.credentials _ _) = credentials
kind_of (Resource.agent _ _ _ _) = agent
kind_of (Resource.peer _ _ _) = peer
kind_of (Resource.domain _ _ _ _) = domain
kind_of (Resource.number _ _ _) = number
kind_of (Resource.trunk _ _ _ _ _) = trunk

-- Each link of the resource, and of what it links to, is to a resource of the kind that its field is
-- declared with, or is null.
mutual
  pub IsTyped : Resource → Type 0
  IsTyped (Resource.acl _ _) = Unit
  IsTyped (Resource.credentials _ _) = Unit
  IsTyped (Resource.agent _ _ its_domain its_credentials) =
      IsLink domain its_domain × IsLink credentials its_credentials
  IsTyped (Resource.peer _ _ its_credentials) = IsLink credentials its_credentials
  IsTyped (Resource.domain _ _ policies rules) = AreNumbers policies × IsLink acl rules
  IsTyped (Resource.number _ _ its_trunk) = IsLink trunk its_trunk
  IsTyped (Resource.trunk _ _ inbound outbound rules) =
      IsLink credentials inbound × IsLink credentials outbound × IsLink acl rules

  pub IsLink : Kind → Link → Type 0
  IsLink k null = Unit
  IsLink k (to r) = (kind_of r ≡ k) × IsTyped r

  pub AreNumbers : Policies → Type 0
  AreNumbers no_policies = Unit
  AreNumbers end = Unit
  AreNumbers (policy _ _ link rest) = IsLink number link × AreNumbers rest

abbrev IsFound : Kind → Option UserConfig → Type 0
IsFound k none = Unit
IsFound k (some c) = config_kind c ≡ k

-- The first entry of the list with the reference, if there is one, is of the kind.
abbrev pub Names : List UserConfig → Kind → Option String → Type 0
Names list k none = Unit
Names list k (some ref) = IsFound k (find (has_ref ref) list)

abbrev policies_of : Option (List EgressPolicyConfig) → List EgressPolicyConfig
policies_of none = []
policies_of (some ps) = ps

-- Each reference of the entry names one of the kind that its field is for.
abbrev pub IsReferring : List UserConfig → UserConfig → Type 0
IsReferring list (UserConfig.agent c) =
    Names list domain c.domain_ref × Names list credentials c.credentials_ref
IsReferring list (UserConfig.peer c) = Names list credentials c.credentials_ref
IsReferring list (UserConfig.domain c) =
    All (λ p. Names list number p.number_ref) (policies_of c.egress_policies)
    × Names list acl c.access_control_list_ref
IsReferring list (UserConfig.number c) = Names list trunk c.trunk_ref
IsReferring list (UserConfig.trunk c) =
    Names list credentials (inbound_credentials c)
    × Names list credentials (outbound_credentials c)
    × Names list acl (inbound_rules c)
IsReferring list _ = Unit

-- What a loader makes of an entry.
abbrev pub IsMadeOf : UserConfig → Resource → Type 0
IsMadeOf c r = (kind_of r ≡ config_kind c) × IsTyped r

module _ (list : List UserConfig) (find_by : Option String → Loaded Link)
    (finds : (k : Kind) (ref : Option String) (link : Link)
      → Names list k ref
      → find_by ref ≡ loaded link
      → IsLink k link) where
  link_each-AreNumbers :
      (ps : List EgressPolicyConfig) (found : Policies)
      → All (λ p. Names list number p.number_ref) ps
      → link_each find_by ps ≡ loaded found
      → AreNumbers found
  unfolding AreNumbers
  link_each-AreNumbers [] found named h = subst AreNumbers (loaded-injective h) tt
  link_each-AreNumbers (p ∷ ps) found named h =
      let (link, h1, h2) = >>=-loaded (find_by p.number_ref) _ h in
      let (rest, h3, last) = >>=-loaded (link_each find_by ps) _ h2 in
      subst AreNumbers (loaded-injective last)
        (finds number p.number_ref link named.0 h1, link_each-AreNumbers ps rest named.1 h3)

  link_policies-AreNumbers :
      (ps : Option (List EgressPolicyConfig)) (found : Policies)
      → All (λ p. Names list number p.number_ref) (policies_of ps)
      → link_policies find_by ps ≡ loaded found
      → AreNumbers found
  unfolding AreNumbers
  link_policies-AreNumbers none found named h = subst AreNumbers (loaded-injective h) tt
  link_policies-AreNumbers (some ps) found named h = link_each-AreNumbers ps found named h

  load_with-IsMadeOf :
      (is_valid : UserConfig → Bool) (now : ℤ) (c : UserConfig) (r : Resource)
      → IsReferring list c
      → load_with is_valid now find_by c ≡ loaded r
      → IsMadeOf c r
  unfolding IsTyped
  load_with-IsMadeOf is_valid now (UserConfig.acl c) r named h =
      let (_, _, last) = >>=-loaded (assert_valid_schema is_valid (UserConfig.acl c)) _ h in
      subst (IsMadeOf (UserConfig.acl c)) (loaded-injective last) (refl, tt)
  load_with-IsMadeOf is_valid now (UserConfig.credentials c) r named h =
      let (_, _, last) = >>=-loaded (assert_valid_schema is_valid (UserConfig.credentials c)) _ h in
      subst (IsMadeOf (UserConfig.credentials c)) (loaded-injective last) (refl, tt)
  load_with-IsMadeOf is_valid now (UserConfig.agent c) r named h =
      let (_, _, h0) = >>=-loaded (assert_valid_schema is_valid (UserConfig.agent c)) _ h in
      let (its_domain, h1, h2) = >>=-loaded (find_by c.domain_ref) _ h0 in
      let (its_credentials, h3, last) = >>=-loaded (find_by c.credentials_ref) _ h2 in
      subst (IsMadeOf (UserConfig.agent c)) (loaded-injective last) (
        refl,
        (
          finds domain c.domain_ref its_domain named.0 h1,
          finds credentials c.credentials_ref its_credentials named.1 h3,
        ),
      )
  load_with-IsMadeOf is_valid now (UserConfig.peer c) r named h =
      let (_, _, h0) = >>=-loaded (assert_valid_schema is_valid (UserConfig.peer c)) _ h in
      let (its_credentials, h1, last) = >>=-loaded (find_by c.credentials_ref) _ h0 in
      subst (IsMadeOf (UserConfig.peer c)) (loaded-injective last)
        (refl, finds credentials c.credentials_ref its_credentials named h1)
  load_with-IsMadeOf is_valid now (UserConfig.domain c) r named h =
      let (policies, h1, h2) = >>=-loaded (link_policies find_by c.egress_policies) _ h in
      let (_, _, h0) = >>=-loaded (assert_valid_schema is_valid (UserConfig.domain c)) _ h2 in
      let (rules, h3, last) = >>=-loaded (find_by c.access_control_list_ref) _ h0 in
      subst (IsMadeOf (UserConfig.domain c)) (loaded-injective last) (
        refl,
        (
          link_policies-AreNumbers c.egress_policies policies named.0 h1,
          finds acl c.access_control_list_ref rules named.1 h3,
        ),
      )
  load_with-IsMadeOf is_valid now (UserConfig.number c) r named h =
      let (_, _, h0) = >>=-loaded (assert_valid_schema is_valid (UserConfig.number c)) _ h in
      let (its_trunk, h1, last) = >>=-loaded (find_by c.trunk_ref) _ h0 in
      subst (IsMadeOf (UserConfig.number c)) (loaded-injective last)
        (refl, finds trunk c.trunk_ref its_trunk named h1)
  load_with-IsMadeOf is_valid now (UserConfig.trunk c) r named h =
      let (_, _, h0) = >>=-loaded (assert_valid_schema is_valid (UserConfig.trunk c)) _ h in
      let (inbound, h1, h2) = >>=-loaded (find_by (inbound_credentials c)) _ h0 in
      let (outbound, h3, h4) = >>=-loaded (find_by (outbound_credentials c)) _ h2 in
      let (rules, h5, last) = >>=-loaded (find_by (inbound_rules c)) _ h4 in
      subst (IsMadeOf (UserConfig.trunk c)) (loaded-injective last) (
        refl,
        (
          finds credentials (inbound_credentials c) inbound named.0 h1,
          finds credentials (outbound_credentials c) outbound named.1 h3,
          finds acl (inbound_rules c) rules named.2 h5,
        ),
      )
  load_with-IsMadeOf is_valid now (UserConfig.unknown c) r named h = cc

find-IsReferring :
    (list : List UserConfig) (p : UserConfig → Bool) (xs : List UserConfig) (c : UserConfig)
    → All (IsReferring list) xs
    → find p xs ≡ some c
    → IsReferring list c
find-IsReferring list p [] c named h = cc
find-IsReferring list p (x ∷ xs) c named h = elim (Bool-cases (p x)) [
  | inl e ↦ let same : x ≡ c = ground arith in subst (IsReferring list) same named.0
  | inr e ↦ find-IsReferring list p xs c named.1 (rw e at h)
]

module _ (is_valid : UserConfig → Bool) (now : ℤ) (list : List UserConfig)
    (named : All (IsReferring list) list) where
  abbrev MakesOf : ℕ → Type 0
  MakesOf fuel =
      (c : UserConfig) (r : Resource)
      → IsReferring list c
      → load is_valid now list fuel c ≡ loaded r
      → IsMadeOf c r

  link_to-IsLink :
      (fuel : ℕ) (k : Kind) (found : Option UserConfig) (link : Link)
      → MakesOf fuel
      → ((c : UserConfig) → found ≡ some c → IsReferring list c)
      → IsFound k found
      → link_to is_valid now list (load is_valid now list fuel) found ≡ loaded link
      → IsLink k link
  unfolding IsLink
  link_to-IsLink fuel k none link makes refers right h = cc
  link_to-IsLink fuel k (some c) link makes refers right h =
      let (r, h1, last) = >>=-loaded (load is_valid now list fuel c) _ h in
      let (same, typed) = makes c r (refers c refl) h1 in
      subst (IsLink k) (loaded-injective last) (same ∙ right, typed)

  find-IsLink :
      (fuel : ℕ)
      → MakesOf fuel
      → (k : Kind) (ref : Option String) (link : Link) → Names list k ref
      → find_by_ref is_valid now list (load is_valid now list fuel) ref ≡ loaded link
      → IsLink k link
  unfolding IsLink
  find-IsLink fuel makes k none link right h = subst (IsLink k) (loaded-injective h) tt
  find-IsLink fuel makes k (some ref) link right h =
      link_to-IsLink fuel k (find (has_ref ref) list) link makes
        (λ c found. find-IsReferring list (has_ref ref) list c named found) right h

  -- If each reference of each entry names an entry of the kind that its field is for, then what is
  -- loaded from an entry is of the kind of the entry, and so is each of its links, and theirs, of the
  -- kind that its field is declared with.
  pub load-IsMadeOf :
      (fuel : ℕ) (c : UserConfig) (r : Resource)
      → IsReferring list c
      → load is_valid now list fuel c ≡ loaded r
      → IsMadeOf c r
  unfolding load
  load-IsMadeOf zero c r refers h = cc
  load-IsMadeOf (suc fuel) c r refers h =
      load_with-IsMadeOf list (find_by_ref is_valid now list (load is_valid now list fuel))
        (find-IsLink fuel (load-IsMadeOf fuel)) is_valid now c r refers h

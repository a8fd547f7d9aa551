-- ===== src/SimpleData/Loaders/Links.antt =====
-- What a loaded resource is linked to: mods/simpledata/src/loaders.
use routr.Prelude.{
  ℕ, zero, suc, ℤ, String, ◌≡◌, refl, Bool, true, List, [], ◌∷◌, Option, none, some, find, all,
  find-all, subst, eq_iff, ap, ◌∙◌,
}
use routr.SimpleData.Configs
use routr.SimpleData.Configs.{UserConfig, EgressPolicyConfig}
use routr.SimpleData.Resources
use routr.SimpleData.Resources.{Resource, Link, null, to, Policies, no_policies, end, policy}
use routr.SimpleData.Mappers.{
  Loaded, loaded, exits, throws, out_of_fuel, ◌>>=◌, assert_valid_schema,
}
use routr.SimpleData.Loaders.{
  has_ref, load_with, link_to, link_each, link_policies, find_by_ref, load, inbound_credentials,
  outbound_credentials, inbound_rules,
}
use routr.SimpleData.Loaders.Depth.{refs_of, policy_refs}

abbrev policy_links : Policies → List Link
policy_links no_policies = []
policy_links end = []
policy_links (policy _ _ number rest) = number ∷ policy_links rest

-- The links of a resource, in the order of the references of its entry.
abbrev pub links_of : Resource → List Link
links_of (Resource.agent _ _ domain credentials) = domain ∷ credentials ∷ []
links_of (Resource.peer _ _ credentials) = credentials ∷ []
links_of (Resource.domain _ _ found_policies rules) = rules ∷ policy_links found_policies
links_of (Resource.number _ _ trunk) = trunk ∷ []
links_of (Resource.trunk _ _ inbound outbound rules) = inbound ∷ outbound ∷ rules ∷ []
links_of _ = []

-- A link is to the resource with the reference, and there is none without a reference.
abbrev pub IsTo : Option String → Link → Type 0
IsTo none null = Unit
IsTo (some ref) (to r) = (Resources.base_of r).ref ≡ ref
IsTo _ _ = ⊥

abbrev pub AreTo : List (Option String) → List Link → Type 0
AreTo [] [] = Unit
AreTo (ref ∷ refs) (link ∷ links) = IsTo ref link × AreTo refs links
AreTo _ _ = ⊥

pub >>=-loaded :
    {A B : Type 0} (first : Loaded A) (next : A → Loaded B) {last : B}
    → (first >>= next) ≡ loaded last
    → (a : A) × (first ≡ loaded a) × (next a ≡ loaded last)
>>=-loaded (loaded a) next h = (a, refl, h)
>>=-loaded exits next h = cc
>>=-loaded (throws e) next h = cc
>>=-loaded out_of_fuel next h = cc

pub loaded-injective : {A : Type 0} {a b : A} → loaded a ≡ loaded b → a ≡ b
loaded-injective {a} e = ap (λ r. elim r [ loaded x ↦ x | _ ↦ a ]) e

-- A resource has the reference of its entry, and links to what the entry refers to.
abbrev pub IsOf : UserConfig → Resource → Type 0
IsOf c r = ((Resources.base_of r).ref ≡ (Configs.base_of c).ref) × AreTo (refs_of c) (links_of r)

module _ (find_by : Option String → Loaded Link)
    (finds : (ref : Option String) (link : Link) → find_by ref ≡ loaded link → IsTo ref link) where
  link_each-AreTo :
      (ps : List EgressPolicyConfig) (found_policies : Policies)
      → link_each find_by ps ≡ loaded found_policies
      → AreTo (policy_refs (some ps)) (policy_links found_policies)
  link_each-AreTo [] found_policies h =
      subst (λ x. AreTo [] (policy_links x)) (loaded-injective h) tt
  link_each-AreTo (p ∷ ps) found_policies h =
      let (number, h1, h2) = >>=-loaded (find_by p.number_ref) _ h in
      let (rest, h3, last) = >>=-loaded (link_each find_by ps) _ h2 in
      subst (λ x. AreTo (policy_refs (some (p ∷ ps))) (policy_links x)) (loaded-injective last)
        (finds p.number_ref number h1, link_each-AreTo ps rest h3)

  link_policies-AreTo :
      (ps : Option (List EgressPolicyConfig)) (found_policies : Policies)
      → link_policies find_by ps ≡ loaded found_policies
      → AreTo (policy_refs ps) (policy_links found_policies)
  link_policies-AreTo none found_policies h =
      subst (λ x. AreTo [] (policy_links x)) (loaded-injective h) tt
  link_policies-AreTo (some ps) found_policies h = link_each-AreTo ps found_policies h

  load_with-IsOf :
      (is_valid : UserConfig → Bool) (now : ℤ) (c : UserConfig) (r : Resource)
      → load_with is_valid now find_by c ≡ loaded r
      → IsOf c r
  load_with-IsOf is_valid now (UserConfig.acl c) r h =
      let (_, _, last) = >>=-loaded (assert_valid_schema is_valid (UserConfig.acl c)) _ h in
      subst (IsOf (UserConfig.acl c)) (loaded-injective last) (refl, tt)
  load_with-IsOf is_valid now (UserConfig.credentials c) r h =
      let (_, _, last) = >>=-loaded (assert_valid_schema is_valid (UserConfig.credentials c)) _ h in
      subst (IsOf (UserConfig.credentials c)) (loaded-injective last) (refl, tt)
  load_with-IsOf is_valid now (UserConfig.agent c) r h =
      let (_, _, h0) = >>=-loaded (assert_valid_schema is_valid (UserConfig.agent c)) _ h in
      let (domain, h1, h2) = >>=-loaded (find_by c.domain_ref) _ h0 in
      let (credentials, h3, last) = >>=-loaded (find_by c.credentials_ref) _ h2 in
      subst (IsOf (UserConfig.agent c)) (loaded-injective last)
        (refl, (finds c.domain_ref domain h1, (finds c.credentials_ref credentials h3, tt)))
  load_with-IsOf is_valid now (UserConfig.peer c) r h =
      let (_, _, h0) = >>=-loaded (assert_valid_schema is_valid (UserConfig.peer c)) _ h in
      let (credentials, h1, last) = >>=-loaded (find_by c.credentials_ref) _ h0 in
      subst (IsOf (UserConfig.peer c)) (loaded-injective last)
        (refl, (finds c.credentials_ref credentials h1, tt))
  load_with-IsOf is_valid now (UserConfig.domain c) r h =
      let (found_policies, h1, h2) = >>=-loaded (link_policies find_by c.egress_policies) _ h in
      let (_, _, h0) = >>=-loaded (assert_valid_schema is_valid (UserConfig.domain c)) _ h2 in
      let (rules, h3, last) = >>=-loaded (find_by c.access_control_list_ref) _ h0 in
      subst (IsOf (UserConfig.domain c)) (loaded-injective last) (
        refl,
        (
          finds c.access_control_list_ref rules h3,
          link_policies-AreTo c.egress_policies found_policies h1,
        ),
      )
  load_with-IsOf is_valid now (UserConfig.number c) r h =
      let (_, _, h0) = >>=-loaded (assert_valid_schema is_valid (UserConfig.number c)) _ h in
      let (trunk, h1, last) = >>=-loaded (find_by c.trunk_ref) _ h0 in
      subst (IsOf (UserConfig.number c)) (loaded-injective last)
        (refl, (finds c.trunk_ref trunk h1, tt))
  load_with-IsOf is_valid now (UserConfig.trunk c) r h =
      let (_, _, h0) = >>=-loaded (assert_valid_schema is_valid (UserConfig.trunk c)) _ h in
      let (inbound, h1, h2) = >>=-loaded (find_by (inbound_credentials c)) _ h0 in
      let (outbound, h3, h4) = >>=-loaded (find_by (outbound_credentials c)) _ h2 in
      let (rules, h5, last) = >>=-loaded (find_by (inbound_rules c)) _ h4 in
      subst (IsOf (UserConfig.trunk c)) (loaded-injective last) (
        refl,
        (
          finds (inbound_credentials c) inbound h1,
          (finds (outbound_credentials c) outbound h3, (finds (inbound_rules c) rules h5, tt)),
        ),
      )
  load_with-IsOf is_valid now (UserConfig.unknown c) r h = cc

all-true : {A : Type 0} (xs : List A) → all (λ _. true) xs ≡ true
all-true [] = refl
all-true (x ∷ xs) = all-true xs

module _ (is_valid : UserConfig → Bool) (now : ℤ) (list : List UserConfig) where
  abbrev LoadsOf : ℕ → Type 0
  LoadsOf fuel =
      (c : UserConfig) (r : Resource) → load is_valid now list fuel c ≡ loaded r → IsOf c r

  link_to-IsTo :
      (fuel : ℕ) (ref : String) (found : Option UserConfig) (link : Link)
      → LoadsOf fuel
      → ((c : UserConfig) → found ≡ some c → has_ref ref c ≡ true)
      → link_to is_valid now list (load is_valid now list fuel) found ≡ loaded link
      → IsTo (some ref) link
  link_to-IsTo fuel ref none link loads named h = cc
  link_to-IsTo fuel ref (some c) link loads named h =
      let (r, h1, last) = >>=-loaded (load is_valid now list fuel c) _ h in
      subst (IsTo (some ref)) (loaded-injective last)
        ((loads c r h1).0 ∙ (eq_iff (Configs.base_of c).ref ref).0 (named c refl))

  find-IsTo :
      (fuel : ℕ)
      → LoadsOf fuel
      → (ref : Option String) (link : Link)
      → find_by_ref is_valid now list (load is_valid now list fuel) ref ≡ loaded link
      → IsTo ref link
  find-IsTo fuel loads none link h = subst (IsTo none) (loaded-injective h) tt
  find-IsTo fuel loads (some ref) link h =
      link_to-IsTo fuel ref (find (has_ref ref) list) link loads
        (λ c found. (find-all (has_ref ref) (λ _. true) list c found (all-true list)).0) h

  -- Whatever is loaded from an entry has the reference of the entry, and each of its links is to a
  -- resource with the reference that the entry names there, and is null where it names none.
  pub load-IsOf :
      (fuel : ℕ) (c : UserConfig) (r : Resource)
      → load is_valid now list fuel c ≡ loaded r
      → IsOf c r
  unfolding load
  load-IsOf zero c r h = cc
  load-IsOf (suc fuel) c r h =
      load_with-IsOf (find_by_ref is_valid now list (load is_valid now list fuel))
        (find-IsTo fuel (load-IsOf fuel)) is_valid now c r h

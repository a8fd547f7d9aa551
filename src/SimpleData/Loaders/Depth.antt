-- ===== src/SimpleData/Loaders/Depth.antt =====
-- When the loaders end: mods/simpledata/src/loaders.
use routr.Prelude.{
  ℕ, zero, suc, ◌≤◌, ◌<◌, ℤ, String, ◌≡◌, ◌≢◌, refl, Bool, true, List, [], ◌∷◌, map, Option, none,
  some, ltb, all, find, arith, All, All-map_impl, all-All, find-all, filter, flat,
}
use routr.SimpleData.Configs
use routr.SimpleData.Configs.{UserConfig, EgressPolicyConfig}
use routr.SimpleData.Resources.{Link}
use routr.SimpleData.Mappers.{
  Loaded, loaded, exits, throws, out_of_fuel, ◌>>=◌, assert_valid_schema,
}
use routr.SimpleData.Loaders.{
  has_ref, load_with, link_to, link_each, link_policies, find_by_ref, load, load_all,
  load_resources, inbound_credentials, outbound_credentials, inbound_rules,
}

abbrev pub policy_refs : Option (List EgressPolicyConfig) → List (Option String)
policy_refs none = []
policy_refs (some ps) = map (λ p. p.number_ref) ps

-- The references that an entry makes.
abbrev pub refs_of : UserConfig → List (Option String)
refs_of (UserConfig.agent c) = c.domain_ref ∷ c.credentials_ref ∷ []
refs_of (UserConfig.peer c) = c.credentials_ref ∷ []
refs_of (UserConfig.domain c) = c.access_control_list_ref ∷ policy_refs c.egress_policies
refs_of (UserConfig.number c) = c.trunk_ref ∷ []
refs_of (UserConfig.trunk c) = inbound_credentials c ∷ outbound_credentials c ∷ inbound_rules c ∷ []
refs_of _ = []

-- Agents refer to domains, domains to numbers, numbers to trunks, and trunks to what refers to none.
abbrev pub rank : UserConfig → ℕ
rank (UserConfig.acl _) = 0
rank (UserConfig.credentials _) = 0
rank (UserConfig.unknown _) = 0
rank (UserConfig.trunk _) = 1
rank (UserConfig.peer _) = 1
rank (UserConfig.number _) = 2
rank (UserConfig.domain _) = 3
rank (UserConfig.agent _) = 4

-- What does not run out of fuel in any of its parts does not as a whole.
>>=-ends :
    {A B : Type 0} (first : Loaded A) (next : A → Loaded B)
    → first ≢ out_of_fuel
    → ((a : A) → next a ≢ out_of_fuel)
    → (first >>= next) ≢ out_of_fuel
>>=-ends (loaded a) next h k = k a
>>=-ends exits next h k = λ e. cc
>>=-ends (throws e) next h k = λ e'. cc
>>=-ends out_of_fuel next h k = absurd (h refl)

loaded-ends : {A : Type 0} (a : A) → loaded a ≢ out_of_fuel
loaded-ends a e = cc

assert-ends :
    (is_valid : UserConfig → Bool) (c : UserConfig) → assert_valid_schema is_valid c ≢ out_of_fuel
assert-ends is_valid c e = ground arith

module _ (find_by : Option String → Loaded Link) where
  abbrev FindEnds : Option String → Type 0
  FindEnds ref = find_by ref ≢ out_of_fuel

  link_each-ends :
      (ps : List EgressPolicyConfig)
      → All FindEnds (policy_refs (some ps))
      → link_each find_by ps ≢ out_of_fuel
  link_each-ends [] h = λ e. cc
  link_each-ends (p ∷ ps) h =
      >>=-ends (find_by p.number_ref) _ h.0 (λ number.
        >>=-ends (link_each find_by ps) _ (link_each-ends ps h.1) (λ rest. loaded-ends _))

  link_policies-ends :
      (ps : Option (List EgressPolicyConfig))
      → All FindEnds (policy_refs ps)
      → link_policies find_by ps ≢ out_of_fuel
  link_policies-ends none h = λ e. cc
  link_policies-ends (some ps) h = link_each-ends ps h

  load_with-ends :
      (is_valid : UserConfig → Bool) (now : ℤ) (c : UserConfig)
      → All FindEnds (refs_of c)
      → load_with is_valid now find_by c ≢ out_of_fuel
  load_with-ends is_valid now (UserConfig.acl c) h =
      >>=-ends (assert_valid_schema is_valid (UserConfig.acl c)) _
        (assert-ends is_valid (UserConfig.acl c)) (λ _. loaded-ends _)
  load_with-ends is_valid now (UserConfig.credentials c) h =
      >>=-ends (assert_valid_schema is_valid (UserConfig.credentials c)) _
        (assert-ends is_valid (UserConfig.credentials c)) (λ _. loaded-ends _)
  load_with-ends is_valid now (UserConfig.agent c) h =
      >>=-ends (assert_valid_schema is_valid (UserConfig.agent c)) _
        (assert-ends is_valid (UserConfig.agent c))
        (λ _.
          >>=-ends (find_by c.domain_ref) _ h.0
            (λ domain. >>=-ends (find_by c.credentials_ref) _ h.1.0 (λ credentials. loaded-ends _)))
  load_with-ends is_valid now (UserConfig.peer c) h =
      >>=-ends (assert_valid_schema is_valid (UserConfig.peer c)) _
        (assert-ends is_valid (UserConfig.peer c))
        (λ _. >>=-ends (find_by c.credentials_ref) _ h.0 (λ credentials. loaded-ends _))
  load_with-ends is_valid now (UserConfig.domain c) h =
      >>=-ends (link_policies find_by c.egress_policies) _
        (link_policies-ends c.egress_policies h.1)
        (λ policies.
          >>=-ends (assert_valid_schema is_valid (UserConfig.domain c)) _
            (assert-ends is_valid (UserConfig.domain c))
            (λ _. >>=-ends (find_by c.access_control_list_ref) _ h.0 (λ rules. loaded-ends _)))
  load_with-ends is_valid now (UserConfig.number c) h =
      >>=-ends (assert_valid_schema is_valid (UserConfig.number c)) _
        (assert-ends is_valid (UserConfig.number c))
        (λ _. >>=-ends (find_by c.trunk_ref) _ h.0 (λ trunk. loaded-ends _))
  load_with-ends is_valid now (UserConfig.trunk c) h =
      >>=-ends (assert_valid_schema is_valid (UserConfig.trunk c)) _
        (assert-ends is_valid (UserConfig.trunk c))
        (λ _. >>=-ends (find_by (inbound_credentials c)) _ h.0 (λ inbound.
          >>=-ends (find_by (outbound_credentials c)) _ h.1.0
            (λ outbound. >>=-ends (find_by (inbound_rules c)) _ h.1.1.0 (λ rules. loaded-ends _))))
  load_with-ends is_valid now (UserConfig.unknown c) h = λ e. cc

module _ (list : List UserConfig) where
  abbrev pub is_below : ℕ → Option String → Bool
  is_below n none = true
  is_below n (some ref) = elim (find (has_ref ref) list) [ none ↦ true | some c ↦ ltb (rank c) n ]

  abbrev pub descends : UserConfig → Bool
  descends c = all (is_below (rank c)) (refs_of c)

  -- Every reference is to an entry of a lower rank.
  abbrev pub well_referenced : Bool
  well_referenced = all descends list

  module _ (well : well_referenced ≡ true) (is_valid : UserConfig → Bool) (now : ℤ) where
    abbrev Ends : ℕ → Type 0
    Ends n =
        (c : UserConfig) → descends c ≡ true → rank c < n → load is_valid now list n c ≢ out_of_fuel

    link_to-Ends :
        (n m : ℕ) (found : Option UserConfig)
        → Ends n
        → ((c : UserConfig) → found ≡ some c → (descends c ≡ true) × (rank c < n))
        → link_to is_valid now list (load is_valid now list n) found ≢ out_of_fuel
    link_to-Ends n m none ends h = λ e. cc
    link_to-Ends n m (some c) ends h =
        >>=-ends (load is_valid now list n c) _ (ends c (h c refl).0 (h c refl).1)
          (λ r. loaded-ends _)

    find-Ends :
        (n m : ℕ)
        → Ends n
        → m ≤ n
        → (ref : Option String) → is_below m ref ≡ true
        → find_by_ref is_valid now list (load is_valid now list n) ref ≢ out_of_fuel
    find-Ends n m ends le none below = λ e. cc
    find-Ends n m ends le (some ref) below =
        link_to-Ends n m (find (has_ref ref) list) ends
          (λ c found. ((find-all (has_ref ref) descends list c found well).1, ground arith))

    load-Ends : (n : ℕ) → Ends n
    unfolding load
    load-Ends zero c h lt = absurd (omega arith)
    load-Ends (suc n) c h lt =
        load_with-ends (find_by_ref is_valid now list (load is_valid now list n)) is_valid now c (
          All-map_impl (λ ref below. find-Ends n (rank c) (load-Ends n) (omega arith) ref below)
            (refs_of c) (all-All (is_below (rank c)) (refs_of c) h))

    rank_bound : (c : UserConfig) → rank c < 5
    rank_bound c = ground arith

    load_all-ends :
        (n : ℕ) (cs : List UserConfig)
        → 5 ≤ n
        → all descends cs ≡ true
        → load_all is_valid now list n cs ≢ out_of_fuel
    unfolding load_all
    load_all-ends n [] le h = loaded-ends _
    load_all-ends n (c ∷ cs) le h =
        >>=-ends (load is_valid now list n c) _
          (load-Ends n c (ground arith) (omega (arith, rank_bound c)))
          (λ r.
            >>=-ends (load_all is_valid now list n cs) _ (load_all-ends n cs le (ground arith))
              (λ rest. loaded-ends _))

module _ (is_valid : UserConfig → Bool) (now : ℤ) where
  all-filter :
      {A : Type 0} (p q : A → Bool) (xs : List A) → all q xs ≡ true → all q (filter p xs) ≡ true
  all-filter p q [] h = refl
  all-filter p q (x ∷ xs) h = ground (arith, all-filter p q xs)

  -- If every reference of the files is to an entry of a lower rank, then loading the entries of any
  -- kind ends, within five nested calls.
  pub load_resources_ends :
      (fuel : ℕ) (of_kind : UserConfig → Bool) (files : List (List UserConfig))
      → well_referenced (flat files) ≡ true
      → 5 ≤ fuel
      → load_resources is_valid now fuel of_kind files ≢ out_of_fuel
  unfolding load_resources
  load_resources_ends fuel of_kind files well enough = ground (
    arith,
    load_all-ends (flat files) well is_valid now fuel (filter of_kind (flat files)) enough
        (all-filter of_kind (descends (flat files)) (flat files) well),
  )

  -- An agent whose reference to a domain is found to be the agent itself is never loaded, however
  -- many nested calls are made.
  load_self_reference :
      (list : List UserConfig) (agent : Configs.AgentConfig) (ref : String)
      → is_valid (UserConfig.agent agent) ≡ true
      → agent.domain_ref ≡ some ref
      → find (has_ref ref) list ≡ some (UserConfig.agent agent)
      → (fuel : ℕ) → load is_valid now list fuel (UserConfig.agent agent) ≡ out_of_fuel
  unfolding load
  load_self_reference list agent ref fits refers found zero = refl
  load_self_reference list agent ref fits refers found (suc fuel) =
      rw (fits, refers, found, load_self_reference list agent ref fits refers found fuel) refl

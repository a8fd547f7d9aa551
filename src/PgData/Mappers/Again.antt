-- ===== src/PgData/Mappers/Again.antt =====
-- Reading a resource and writing it again: the managers' mappings after each other.
use routr.Prelude.{
  String, ◌≡◌, ◌≢◌, refl, ap, ◌∙◌, List, [], ◌∷◌, map, Option, none, some, arith, All, to_upper,
  eq_iff,
}
use routr.Sip.{LoadBalancingAlgorithm, unspecified}
use routr.PgData.Mappers.{
  v2, Base, TrunkUri, EgressPolicy, or_null, ref_of_rules, ref_of_credentials, normalize_algorithm,
  uri_to_dto, uris_to_dto,
}
use routr.PgData.Mappers.Domains.{
  policy_to_prisma, policy_to_dto, policies_to_prisma, policies_to_dto,
}
use routr.PgData.Mappers.Service.{manager, mapped, on_extended}
use routr.PgData.Mappers.Kinds.{
  Resource, acl, credentials, agent, peer, domain, trunk, number, map_to_prisma, map_to_dto,
}

or_null-eq : (ref : Option String) → ref ≢ some "" → or_null ref ≡ ref
or_null-eq none h = refl
or_null-eq (some s) h = ground (arith, eq_iff s "")

normalize_algorithm-eq :
    (a : Option LoadBalancingAlgorithm) → a ≢ some unspecified → normalize_algorithm a ≡ a
normalize_algorithm-eq none h = refl
normalize_algorithm-eq (some a) h = ground arith

upper_uris :
    (uris : List TrunkUri)
    → All (λ uri. to_upper uri.transport ≡ uri.transport) uris
    → map uri_to_dto uris ≡ uris
upper_uris [] h = refl
upper_uris (uri ∷ uris) h = rw (h.0, upper_uris uris h.1) refl

abbrev AreUpper : Option (List TrunkUri) → Type 0
AreUpper none = Unit
AreUpper (some uris) = All (λ uri. to_upper uri.transport ≡ uri.transport) uris

uris-upper : (uris : Option (List TrunkUri)) → AreUpper uris → uris_to_dto uris ≡ uris
uris-upper none h = refl
uris-upper (some uris) h = ap some (upper_uris uris h)

-- A value is there.
abbrev IsGiven {ℓ} : {A : Type ℓ} → Option A → Type ℓ
IsGiven {A = A} x = (a : A) × (x ≡ some a)

module _ {J : Type 0} where
  abbrev timeless : Base J → Base J
  timeless b = record b { created_at = none; updated_at = none }

  abbrev unlinked : EgressPolicy J → EgressPolicy J
  unlinked policy = record policy { number = none }

  abbrev policy_columns : Option (List (EgressPolicy J)) → Option (List (EgressPolicy J))
  policy_columns none = none
  policy_columns (some policies) = some (map unlinked policies)

  -- The columns of the row, without the times, and without the resources that it refers to.
  unfoldable pub columns : Resource J → Resource J
  columns (acl r) = acl (record r { base = timeless r.base })
  columns (credentials r) = credentials (record r { base = timeless r.base })
  columns (agent r) = agent (record r { base = timeless r.base; domain = none; credentials = none })
  columns (peer r) =
      peer (record r { base = timeless r.base; access_control_list = none; credentials = none })
  columns (domain r) = domain (record r {
    base = timeless r.base;
    access_control_list = none;
    egress_policies = policy_columns r.egress_policies;
  })
  columns (trunk r) = trunk (record r {
    base = timeless r.base;
    access_control_list = none;
    inbound_credentials = none;
    outbound_credentials = none;
  })
  columns (number r) = number (record r { base = timeless r.base; trunk = none })

  -- What the database keeps to: the version is v2, no reference is empty, the columns that are not
  -- optional have a value, a column that refers to a row and the row that is read for it agree, and
  -- the transports of a trunk are upper case.
  unfoldable pub IsRow : Resource J → Type 0
  IsRow (acl r) = r.base.api_version ≡ some v2
  IsRow (credentials r) = r.base.api_version ≡ some v2
  IsRow (agent r) =
      (r.base.api_version ≡ some v2)
      × (r.domain_ref ≢ some "")
      × (r.credentials_ref ≢ some "")
      × IsGiven r.privacy
      × IsGiven r.expires
  IsRow (peer r) =
      (r.base.api_version ≡ some v2)
      × (r.access_control_list_ref ≢ some "")
      × (r.credentials_ref ≢ some "")
      × (r.balancing_algorithm ≢ some unspecified)
      × IsGiven r.expires
  IsRow (domain r) =
      (r.base.api_version ≡ some v2)
      × (r.access_control_list_ref ≢ some "")
      × (ref_of_rules r.access_control_list ≡ r.access_control_list_ref)
  IsRow (trunk r) =
      (r.base.api_version ≡ some v2)
      × (r.access_control_list_ref ≢ some "")
      × (r.inbound_credentials_ref ≢ some "")
      × (r.outbound_credentials_ref ≢ some "")
      × (ref_of_rules r.access_control_list ≡ r.access_control_list_ref)
      × (ref_of_credentials r.inbound_credentials ≡ r.inbound_credentials_ref)
      × (ref_of_credentials r.outbound_credentials ≡ r.outbound_credentials_ref)
      × AreUpper r.uris
  IsRow (number r) = r.base.api_version ≡ some v2

  unlinked-again :
      (policies : List (EgressPolicy J))
      → map unlinked (map policy_to_prisma (map policy_to_dto policies)) ≡ map unlinked policies
  unlinked-again [] = refl
  unlinked-again (policy ∷ policies) = ap (λ rest. unlinked policy ∷ rest) (unlinked-again policies)

  policy_columns-again :
      (policies : Option (List (EgressPolicy J)))
      → policy_columns (policies_to_prisma (policies_to_dto policies)) ≡ policy_columns policies
  policy_columns-again none = refl
  policy_columns-again (some policies) = ap some (unlinked-again policies)

  map_to_prisma-map_to_dto :
      (row : Resource J) → IsRow row → columns (map_to_prisma (map_to_dto row)) ≡ columns row
  unfolding columns IsRow map_to_prisma map_to_dto
  map_to_prisma-map_to_dto (acl r) h = rw h refl
  map_to_prisma-map_to_dto (credentials r) h = rw h refl
  map_to_prisma-map_to_dto (agent r) h =
      let (version, domain_named, credentials_named, (p, private), (n, expiring)) = h in
      rw
        (
          version,
          or_null-eq r.domain_ref domain_named,
          or_null-eq r.credentials_ref credentials_named,
          private,
          expiring,
        )
        refl
  map_to_prisma-map_to_dto (peer r) h =
      let (version, rules_named, credentials_named, balanced, (n, expiring)) = h in
      rw
        (
          version,
          or_null-eq r.access_control_list_ref rules_named,
          or_null-eq r.credentials_ref credentials_named,
          normalize_algorithm-eq r.balancing_algorithm balanced,
          expiring,
        )
        refl
  map_to_prisma-map_to_dto (domain r) h =
      let (version, rules_named, rules_joined) = h in
      rw
        (
          version,
          rules_joined,
          or_null-eq r.access_control_list_ref rules_named,
          policy_columns-again r.egress_policies,
        )
        refl
  map_to_prisma-map_to_dto (trunk r) h =
      let (version, rules, inbound, outbound, its_rules, its_inbound, its_outbound, upper) = h in
      rw
        (
          version,
          its_rules,
          its_inbound,
          its_outbound,
          or_null-eq r.access_control_list_ref rules,
          or_null-eq r.inbound_credentials_ref inbound,
          or_null-eq r.outbound_credentials_ref outbound,
          uris-upper r.uris upper,
        )
        refl
  map_to_prisma-map_to_dto (number r) h = rw h refl

  module _ (encode decode : J → J) (decode-encode : (j : J) → decode (encode j) ≡ j) where
    mapped-again : (j : Option J) → mapped decode (mapped encode j) ≡ j
    mapped-again none = refl
    mapped-again (some j) = ap some (decode-encode j)

    map_to_dto-extended :
        (row : Resource J)
        → on_extended decode (map_to_dto (on_extended encode row)) ≡ map_to_dto row
    unfolding map_to_dto
    map_to_dto-extended (acl r) = rw (mapped-again r.base.extended) refl
    map_to_dto-extended (credentials r) = rw (mapped-again r.base.extended) refl
    map_to_dto-extended (agent r) = rw (mapped-again r.base.extended) refl
    map_to_dto-extended (peer r) = rw (mapped-again r.base.extended) refl
    map_to_dto-extended (domain r) = rw (mapped-again r.base.extended) refl
    map_to_dto-extended (trunk r) = rw (mapped-again r.base.extended) refl
    map_to_dto-extended (number r) = rw (mapped-again r.base.extended) refl

    -- Within one process, without the messages of gRPC between, `mapToPrisma` after `mapToDto` gives
    -- the columns that a row of any kind had, if the row keeps to the database's rules and decoding a
    -- value of `extended` undoes encoding it.
    pub manager-read_again :
        (row : Resource J)
        → IsRow row
        → columns (
            (manager encode decode).map_to_prisma (
              (manager encode decode).decode_extended
                ((manager encode decode).map_to_dto ((manager encode decode).encode_extended row))))
          ≡ columns row
    unfolding manager columns IsRow map_to_prisma map_to_dto
    manager-read_again row h =
        ap (λ r. columns (map_to_prisma r)) (map_to_dto-extended row)
        ∙ map_to_prisma-map_to_dto row h

-- ===== src/Connect/Access/Sound.antt =====
-- What a request has shown when the access check lets it pass.
use routr.Prelude.{
  String, ◌≡◌, true, List, [], ◌∷◌, Option, none, some, Result, ok, err, arith, >>=-eq-ok, ◌==◌,
  string_eq, eq_iff, filter_r, head?, truthy, holds, Bool-cases, Option-cases, inl, inr, Memᴰ,
  if◌then◌else◌, refl, ◌∙◌, ◌≢◌, subst, ap,
}
use routr.Sip.{MessageRequest, Authorization}
use routr.Sip.Connect.{Trunk, Credentials, AccessControlList, RoutableResourceUnion}
use routr.Common.IpUtils.{IpLib, has_ip}
use routr.Connect.Types.{ApiClient, Packages}
use routr.Connect.Auth.{calculate_auth_response}
use routr.Connect.Responses.{
  Reply, server_internal_error_response, unauthorized_response_without_challenge,
}
use routr.Connect.Access.{
  answers, challenge, check_agent_or_peer_access, check_inbound_credentials,
  check_access_control_list, check_callee, check_trunk, check_access_from_pstn, credentials_of,
  secret_of, trunk_ref, host_asked,
}

module _ (p : Packages) (req : MessageRequest) where
  -- The request carries the digest that the credentials give for it.
  pub record IsProven (credentials : Option Credentials) : Type 0 where
    pub auth : Authorization
    pub carried : req.message.authorization ≡ some auth
    pub digest : calculate_auth_response p auth req.method (secret_of credentials) ≡ auth.response

  challenge_refuses : challenge p req ≢ ok none
  challenge_refuses h = let (host, _, h') = >>=-eq-ok (host_asked req) _ h in cc

  proven :
      (auth : Authorization) (c : Option Credentials)
      → req.message.authorization ≡ some auth
      → (if answers p req auth c then ok none else challenge p req) ≡ ok none
      → IsProven c
  proven auth c e h = elim (Bool-cases (answers p req auth c)) [
    | inl same ↦ record {
      auth = auth;
      carried = e;
      digest =
          ground
            (arith, eq_iff (calculate_auth_response p auth req.method (secret_of c)) auth.response);
    }
    | inr other ↦ absurd (challenge_refuses (ground arith))
  ]

  -- The request that `checkAgentOrPeerAccess` lets pass has a caller, and carries the digest that
  -- the caller's credentials give for its method, realm, nonce and URI.
  pub check_agent_or_peer_access_sound :
      (caller : Option RoutableResourceUnion)
      → check_agent_or_peer_access p req caller ≡ ok none
      → (c : Option Credentials) × (credentials_of caller ≡ ok c) × IsProven c
  unfolding check_agent_or_peer_access
  check_agent_or_peer_access_sound caller h = elim (Option-cases req.message.authorization) [
    | inl e ↦ absurd (challenge_refuses (ground arith))
    | inr (auth, e) ↦
        let (c, known, h') =
          >>=-eq-ok (credentials_of caller)
            (λ c. if answers p req auth c then ok none else challenge p req) (ground arith) in
        (c, known, proven auth c e h')
  ]

  check_inbound_credentials_sound :
      (trunk : Trunk) (c : Credentials)
      → check_inbound_credentials p req trunk ≡ ok none
      → trunk.inbound_credentials ≡ some c
      → IsProven (some c)
  unfolding check_inbound_credentials
  check_inbound_credentials_sound trunk c h has = elim (Option-cases req.message.authorization) [
    | inl e ↦ absurd (challenge_refuses (ground arith))
    | inr (auth, e) ↦ proven auth (some c) e (ground arith)
  ]

  -- A trunk with no credentials asks for no proof.
  abbrev pub IsProvenFor : Option Credentials → Type 0
  IsProvenFor none = Unit
  IsProvenFor (some c) = IsProven (some c)

  proven_for :
      (trunk : Trunk) (credentials : Option Credentials)
      → trunk.inbound_credentials ≡ credentials
      → check_inbound_credentials p req trunk ≡ ok none
      → IsProvenFor credentials
  proven_for trunk none has h = tt
  proven_for trunk (some c) has h = check_inbound_credentials_sound trunk c h has

  filter_passes :
      (kept : Result (List String))
      → (elim kept as (λ _. Option Reply) [
        | err _ ↦ some server_internal_error_response
        | ok nets ↦
            if truthy (head? nets) then none else some unauthorized_response_without_challenge
      ])
        ≡ none
      → (nets : List String) × (net : String) × (kept ≡ ok nets) × (head? nets ≡ some net)
  filter_passes (err e) h = cc
  filter_passes (ok []) h = cc
  filter_passes (ok (n ∷ ns)) h = (n ∷ ns, n, refl, refl)

  module _ (ip : IpLib) where
    -- Some network of the list `allow` holds the sender's address.
    abbrev pub IsListed : AccessControlList → Type 0
    IsListed acl = (net : String) × Memᴰ net acl.allow × (has_ip ip net req.sender.host ≡ ok true)

    listed_of_kept :
        (nets : List String) (kept : List String) (net : String)
        → filter_r (λ n. has_ip ip n req.sender.host) nets ≡ ok kept
        → head? kept ≡ some net
        → Memᴰ net nets × (has_ip ip net req.sender.host ≡ ok true)
    unfolding filter_r
    listed_of_kept [] kept net h e = ground arith
    listed_of_kept (n ∷ nets) kept net h e =
        let (keep, tested, h') = >>=-eq-ok (has_ip ip n req.sender.host) _ h in
        let (rest, tail, h'') = >>=-eq-ok (filter_r (λ n. has_ip ip n req.sender.host) nets) _ h' in
        elim (Bool-cases keep) [
          | inl same ↦
              let who : n ≡ net = ground arith in
              subst (λ x. Memᴰ x (n ∷ nets) × (has_ip ip x req.sender.host ≡ ok true)) who
                (Memᴰ.head refl, tested ∙ ap ok same)
          | inr other ↦
              let (listed, holds) = listed_of_kept nets rest net tail (ground arith) in
              (Memᴰ.tail listed, holds)
        ]

    check_access_control_list_sound :
        (trunk : Trunk) (acl : AccessControlList)
        → check_access_control_list p ip req trunk ≡ none
        → trunk.access_control_list ≡ some acl
        → IsListed acl
    unfolding check_access_control_list
    check_access_control_list_sound trunk acl h has =
        let (nets, net, kept, first) =
          filter_passes (filter_r (λ n. has_ip ip n req.sender.host) acl.allow) (ground arith) in
        let (listed, holds) = listed_of_kept acl.allow nets net kept first in (net, listed, holds)

    -- A trunk with no list takes any sender.
    abbrev pub IsListedBy : Option AccessControlList → Type 0
    IsListedBy none = Unit
    IsListedBy (some acl) = IsListed acl

    listed_by :
        (trunk : Trunk) (list : Option AccessControlList)
        → trunk.access_control_list ≡ list
        → check_access_control_list p ip req trunk ≡ none
        → IsListedBy list
    listed_by trunk none has h = tt
    listed_by trunk (some acl) has h = check_access_control_list_sound trunk acl h has

    -- A call from the PSTN shows that it comes from the trunk of the number that it is for: the
    -- address is on the trunk's list, if it has one, and the digest is that of the trunk's
    -- credentials, if it has them.
    pub record IsFromTrunk (api : ApiClient) (callee : Option RoutableResourceUnion) : Type 0 where
      pub host : String
      pub asked : host_asked req ≡ ok host
      pub trunk : Trunk
      pub others : List Trunk
      pub found : api.trunks_by_inbound_uri host ≡ ok (trunk ∷ others)
      pub resource : RoutableResourceUnion
      pub called : callee ≡ some resource
      pub same_trunk : trunk_ref resource ≡ ok trunk.ref
      pub allowed : IsListedBy trunk.access_control_list
      pub proof_given : IsProvenFor trunk.inbound_credentials

    check_trunk_passes :
        (trunk : Trunk)
        → check_trunk p ip req trunk ≡ ok none
        → (check_access_control_list p ip req trunk ≡ none)
          × (check_inbound_credentials p req trunk ≡ ok none)
    unfolding check_trunk
    check_trunk_passes trunk h = elim (Option-cases (check_access_control_list p ip req trunk)) [
      | inl e ↦ (e, ground arith)
      | inr (r, e) ↦ absurd (ground arith)
    ]

    check_callee_passes :
        (callee : Option RoutableResourceUnion) (trunks : List Trunk)
        → check_callee p ip req callee trunks ≡ ok none
        → (trunk : Trunk) × (others : List Trunk) × (resource : RoutableResourceUnion) × (trunks
            ≡ trunk ∷ others)
          × (callee ≡ some resource)
          × (trunk_ref resource ≡ ok trunk.ref)
          × (check_trunk p ip req trunk ≡ ok none)
    unfolding check_callee
    check_callee_passes none trunks h = cc
    check_callee_passes (some resource) [] h = cc
    check_callee_passes (some resource) (trunk ∷ others) h =
        let (ref, known, h') = >>=-eq-ok (trunk_ref resource) _ h in
        elim (Bool-cases (ref == trunk.ref)) [
          | inl same ↦ (
            trunk,
            others,
            resource,
            refl,
            refl,
            ground (arith, eq_iff ref trunk.ref),
            ground arith,
          )
          | inr other ↦ absurd (ground arith)
        ]

    module _ (api : ApiClient) where
      -- The call that `checkAccessFromPSTN` lets pass is for a number whose trunk is the first one
      -- with the inbound URI asked for; the sender is in a network of the trunk's list `allow`, if
      -- there is a list; and the request carries the digest of the trunk's inbound credentials, if
      -- there are any.
      pub check_access_from_pstn_sound :
          (callee : Option RoutableResourceUnion)
          → check_access_from_pstn p ip api req callee ≡ ok none
          → IsFromTrunk api callee
      unfolding check_access_from_pstn
      check_access_from_pstn_sound callee h =
          let (host, asked, h') = >>=-eq-ok (host_asked req) _ h in
          let (trunks, found, h'') = >>=-eq-ok (api.trunks_by_inbound_uri host) _ h' in
          let (trunk, others, resource, listed, called, same_trunk, checked) =
            check_callee_passes callee trunks h'' in
          let (allowed, answered) = check_trunk_passes trunk checked in
          record {
            host = host;
            asked = asked;
            trunk = trunk;
            others = others;
            found = found ∙ ap ok listed;
            resource = resource;
            called = called;
            same_trunk = same_trunk;
            allowed = listed_by trunk trunk.access_control_list refl allowed;
            proof_given = proven_for trunk trunk.inbound_credentials refl answered;
          }

-- ===== src/Registry/Service/Rounds.antt =====
-- What a round of registrations leaves for the next one.
use routr.Prelude.{
  ℕ, ℤ, String, ◌≡◌, refl, true, List, [], ◌∷◌, none, Result, ok, err, arith, All, All-map_impl,
  defined, head?, >>=-eq-ok, ok-injective, ap, sym, ◌∙◌, subst, Result-cases, inl, inr, string_eq,
}
use routr.Prelude.Exec.{continue-eq-ok}
use routr.Sip.{SipMessage}
use routr.Sip.Connect.{Trunk}
use routr.Registry.Types.{
  RegistryConfig, RequestParams, RegistrationRequest, SendMessageResponse, Packages,
}
use routr.Registry.Store.{MemoryStore, not_expired, list}
use routr.Registry.Store.Held.{IsHeld, IsHeld-listed, put-IsHeld, put-keeps, put-uncounted}
use routr.Registry.Request.{
  create_registration_request, get_host_from_address, get_port_from_address,
}
use routr.Registry.Service.{
  Registry, Requester, registration_request_input_from_trunk, register_trunk, register_all, respond,
  entry_of, store_result, store_results, is_stored, get_unregistered_trunks, registration_round,
}

-- A request is for the trunk that it was made from.
create-trunk_ref :
    (p : Packages) (params : RequestParams) (cseq : ℕ) (request : RegistrationRequest)
    → (create_registration_request p params cseq).0 ≡ ok request
    → request.trunk_ref ≡ params.trunk_ref
unfolding create_registration_request
create-trunk_ref p params cseq request h =
    let (proxy_host, _, h1) = continue-eq-ok (get_host_from_address params.proxy_address) _ _ h in
    let (proxy_port, _, h2) =
      continue-eq-ok (get_port_from_address p params.proxy_address) _ _ h1 in
    let (target_host, _, h3) =
      continue-eq-ok (get_host_from_address params.target_address) _ _ h2 in
    let (target_port, _, h4) =
      continue-eq-ok (get_port_from_address p params.target_address) _ _ h3 in
    ap (λ r. r.trunk_ref) (sym (ok-injective h4))

input-trunk_ref :
    (p : Packages) (trunk : Trunk) (config : RegistryConfig) (params : RequestParams)
    → registration_request_input_from_trunk p trunk config ≡ ok params
    → params.trunk_ref ≡ trunk.ref
unfolding registration_request_input_from_trunk
input-trunk_ref p trunk config params h =
    let (uris, _, h1) = >>=-eq-ok (defined trunk.uris) _ h in
    let (uri, _, h2) = >>=-eq-ok (defined (head? uris)) _ h1 in
    let (edge_port, _, h3) = >>=-eq-ok (defined (head? config.edge_ports)) _ h2 in
    ap (λ r. r.trunk_ref) (sym (ok-injective h3))

respond-trunk_ref :
    (ref : String) (answer : Result SipMessage) (response : SendMessageResponse)
    → respond ref answer ≡ ok response
    → response.trunk_ref ≡ ref
respond-trunk_ref ref (ok message) response h = ap (λ r. r.trunk_ref) (sym (ok-injective h))
respond-trunk_ref ref (err reason) response h = cc

module _ (p : Packages) (config : RegistryConfig) (requester : Requester) where
  register-trunk_ref :
      (trunk : Trunk) (cseq : ℕ) (response : SendMessageResponse)
      → (register_trunk p config requester trunk cseq).0 ≡ ok response
      → response.trunk_ref ≡ trunk.ref
  unfolding register_trunk
  register-trunk_ref trunk cseq response h =
      elim (Result-cases (registration_request_input_from_trunk p trunk config)) [
        | inr (reason, e) ↦ absurd (ground (arith))
        | inl (params, e) ↦
            let (request, made, h') =
              >>=-eq-ok (create_registration_request p params cseq).0
                (λ request. respond request.trunk_ref (requester request)) (ground arith) in
            respond-trunk_ref request.trunk_ref (requester request) response h'
            ∙ create-trunk_ref p params cseq request made
            ∙ input-trunk_ref p trunk config params e
      ]

  module _ (done later : ℤ) where
    -- The response came, and what is stored for it is unexpired at `later`.
    abbrev pub Lasts : Result SendMessageResponse → Type 0
    Lasts (ok response) = not_expired later (entry_of config done response) ≡ true
    Lasts (err _) = ⊥

    store_result-keeps :
        (r : Result SendMessageResponse) (s : MemoryStore) (ref : String)
        → s.cleanup_count ≡ none
        → Lasts r
        → IsHeld later ref s
        → IsHeld later ref (store_result config done r s)
    unfolding store_result entry_of
    store_result-keeps (ok response) s ref u lasts h =
        put-keeps later done response.trunk_ref (entry_of config done response) s u lasts refl ref h
    store_result-keeps (err _) s ref u lasts h = elim lasts [ ]

    store_result-uncounted :
        (r : Result SendMessageResponse) (s : MemoryStore)
        → s.cleanup_count ≡ none
        → (store_result config done r s).cleanup_count ≡ none
    unfolding store_result
    store_result-uncounted (ok response) s u =
        put-uncounted later done response.trunk_ref (entry_of config done response) s u
    store_result-uncounted (err _) s u = u

    store_results-keeps :
        (rs : List (Result SendMessageResponse)) (s : MemoryStore) (ref : String)
        → s.cleanup_count ≡ none
        → All Lasts rs
        → IsHeld later ref s
        → IsHeld later ref (store_results config done rs s)
    unfolding store_results
    store_results-keeps [] s ref u lasts h = h
    store_results-keeps (r ∷ rs) s ref u lasts h =
        store_results-keeps rs (store_result config done r s) ref (store_result-uncounted r s u)
          lasts.1 (store_result-keeps r s ref u lasts.0 h)

    store_result-IsHeld :
        (r : Result SendMessageResponse) (s : MemoryStore) (ref : String)
        → s.cleanup_count ≡ none
        → Lasts r
        → ((response : SendMessageResponse) → r ≡ ok response → response.trunk_ref ≡ ref)
        → IsHeld later ref (store_result config done r s)
    unfolding store_result entry_of
    store_result-IsHeld (ok response) s ref u lasts about =
        subst (λ k. IsHeld later k (store_result config done (ok response) s)) (about response refl)
          (put-IsHeld later done response.trunk_ref (entry_of config done response) s u lasts refl)
    store_result-IsHeld (err _) s ref u lasts about = elim lasts [ ]

    IsHeld-after-All :
        (trunks : List Trunk) (cseq : ℕ) (s : MemoryStore)
        → s.cleanup_count ≡ none
        → All Lasts (register_all p config requester trunks cseq).0
        → All
            (λ trunk.
              IsHeld later trunk.ref
                (store_results config done (register_all p config requester trunks cseq).0 s))
            trunks
    unfolding register_all store_results
    IsHeld-after-All [] cseq s u lasts = lasts
    IsHeld-after-All (trunk ∷ trunks) cseq s u lasts =
        let result = (register_trunk p config requester trunk cseq).0 in
        let cseq' = (register_trunk p config requester trunk cseq).1 in
        let s' = store_result config done result s in
        let u' = store_result-uncounted result s u in
        (
          store_results-keeps (register_all p config requester trunks cseq').0 s' trunk.ref u'
              lasts.1
              (store_result-IsHeld result s trunk.ref u lasts.0 (register-trunk_ref trunk cseq)),
          IsHeld-after-All trunks cseq' s' u' lasts.1,
        )

    -- If the registrations of a round are all answered, and what is stored for them is unexpired at
    -- a later time, then the store lists every trunk of the round then, so that no later round asks
    -- for it again at that time. The store is one that counts no cycles.
    pub registration_round-lists :
        (now : ℤ) (trunks : List Trunk) (r : Registry)
        → r.store.cleanup_count ≡ none
        → All Lasts
            (register_all p config requester (get_unregistered_trunks now r.store trunks) r.cseq).0
        → All
            (λ trunk.
              is_stored
                (list later (registration_round p config requester now done (ok trunks) r).store)
                trunk
              ≡ true)
            (get_unregistered_trunks now r.store trunks)
    unfolding registration_round
    registration_round-lists now trunks r u lasts =
        All-map_impl (λ trunk h. IsHeld-listed later trunk.ref _ h)
          (get_unregistered_trunks now r.store trunks)
          (IsHeld-after-All (get_unregistered_trunks now r.store trunks) r.cseq r.store u lasts)

-- ===== src/Location/Service/Sticky.antt =====
-- What a call makes of its next requests, over any store that keeps the laws of `StoreLaws`.
use routr.Prelude.{
  ℤ, String, ◌≡◌, ◌⊎◌, refl, sym, ap, subst, ok-injective, ◌∙◌, Bool, true, List, [], ◌∷◌, Option,
  none, some, ok, arith, Bool-cases, Option-cases, inl, inr, if◌then◌else◌, head?, get_or,
}
use routr.Prelude.Int.{◌≤ℤ◌}
use routr.Prelude.Exec.{Exec, ◌>>=◌, continue-eq}
use routr.Sip.{Route}
use routr.Location.Types.{LocatorStore, StoreLaws, FindRoutesRequest, Backend}
use routr.Location.Service.{
  Location, find_routes, candidates, choose, remember, label_string, store_key, call_key, has_any,
  next, next_with_affinity, round_robin, is_least_sessions, settle, has_affinity, sort_by_sessions,
}

module _ {S : Type 0} (store : ℤ → LocatorStore S) {IsGood : S → Type 0}
    {is_alive : ℤ → Route → Bool} (laws : StoreLaws store IsGood is_alive) where
  -- The last that was done to the store of the service is to put the route under the key.
  abbrev JustPut : String → Route → Location S → Type 0
  JustPut key r l = (now : ℤ) × (s : S) × IsGood s × (l.store ≡ ((store now).put key (some r) s).1)

  module _ (now : ℤ) where
    abbrev here : LocatorStore S
    here = store now

    remember-JustPut :
        (key : String) (chosen : Option Route) (r : Route) (rs : List Route) (l l' : Location S)
        → IsGood l.store
        → remember here key chosen l ≡ (ok (r ∷ rs), l')
        → JustPut key r l'
    remember-JustPut key none r rs l l' good h = cc
    remember-JustPut key (some x) r rs l l' good h =
        let (_, _, h') = continue-eq (here.put key (some x) l.store).0 _ _ l' h in
        let written : l'.store ≡ (here.put key (some r) l.store).1 = ground arith in
        (now, l.store, good, written)

    settle-IsGood :
        (routes known : List Route) (ref : String) (r : Route) (l l' : Location S)
        → IsGood l.store
        → settle here routes ref known l ≡ (ok (some r), l')
        → IsGood l'.store
    settle-IsGood routes (x ∷ xs) ref r l l' good h = subst IsGood (ap (λ p. p.1.store) h) good
    settle-IsGood routes [] ref r l l' good h =
        let first = head? (sort_by_sessions routes) in
        let (_, _, h') = continue-eq (here.put ref first l.store).0 _ _ l' h in
        let chosen : first ≡ some r = ok-injective (ap (λ p. p.0) h') in
        subst IsGood (ap (λ p. p.1.store) h') (rw chosen (laws.put_good now ref r l.store good))

    next_with_affinity-IsGood :
        (routes : List Route) (ref : String) (r : Route) (l l' : Location S)
        → IsGood l.store
        → next_with_affinity here routes ref l ≡ (ok (some r), l')
        → IsGood l'.store
    unfolding next_with_affinity
    next_with_affinity-IsGood routes ref r l l' good h =
        let s = (here.get ref l.store).1 in
        let read = laws.get_good now ref l.store good in
        let (known, _, h') = continue-eq (here.get ref l.store).0 _ _ l' h in
        settle-IsGood routes known ref r (record l { store = s }) l' read h'

    next-IsGood :
        (routes : List Route) (backend : Backend) (aor : String) (l : Location S)
        → IsGood l.store
        → IsGood (next here routes backend aor l).1.store
    unfolding next round_robin
    next-IsGood routes backend aor l good =
        elim (Bool-cases (is_least_sessions backend.balancing_algorithm)) [
          | inl e ↦ rw e good
          | inr e ↦ rw e good
        ]

    module _ (locale_before : String → String → Bool) (req : FindRoutesRequest) where
      abbrev key : String
      key = store_key here locale_before req

      -- The one route that is chosen for a backend.
      abbrev pick : Backend → List Route → Exec (Location S) (Option Route)
      pick b routes =
          if has_affinity here b req.session_affinity_ref
          then next_with_affinity here routes (get_or req.session_affinity_ref "")
          else next here routes b req.aor

      pick-IsGood :
          (b : Backend) (routes : List Route) (r : Route) (l : Location S)
          → IsGood l.store
          → (pick b routes l).0 ≡ ok (some r)
          → IsGood (pick b routes l).1.store
      pick-IsGood b routes r l good =
          elim (Bool-cases (has_affinity here b req.session_affinity_ref)) [
            | inl e ↦ rw e (λ h.
                next_with_affinity-IsGood routes (get_or req.session_affinity_ref "") r l _ good (
                  ap
                    (λ x. (
                      x,
                      (next_with_affinity here routes (get_or req.session_affinity_ref "") l).1,
                    ))
                    h))
            | inr e ↦ rw e (λ h. next-IsGood routes b req.aor l good)
          ]

      picked-JustPut :
          (b : Backend) (routes : List Route) (r : Route) (rs : List Route) (l l' : Location S)
          → IsGood l.store
          → (pick b routes >>= remember here key) l ≡ (ok (r ∷ rs), l')
          → JustPut key r l'
      picked-JustPut b routes r rs l l' good h =
          let (x, chosen, h') =
            continue-eq (pick b routes l).0 (remember here key) (pick b routes l).1 l' h in
          elim (Option-cases x) [
            | inl e ↦ absurd (ground arith)
            | inr (y, e) ↦
                remember-JustPut key x r rs (pick b routes l).1 l'
                  (pick-IsGood b routes y l good (chosen ∙ ap ok e)) h'
          ]

      choose-JustPut :
          (routes : List Route) (r : Route) (rs : List Route) (l l' : Location S)
          → IsGood l.store
          → (label_string locale_before req.labels ≡ "") ⊎ (b : Backend) × (req.backend ≡ some b)
          → choose here req key routes l ≡ (ok (r ∷ rs), l')
          → JustPut key r l'
      unfolding choose
      choose-JustPut routes r rs l l' good keyed h = elim (Option-cases req.backend) [
        | inl bare ↦ elim keyed [
          | inr (b, e) ↦ absurd (ground arith)
          | inl unlabelled ↦
              let own = call_key req.aor req.call_id in
              let (_, _, h') =
                continue-eq (here.put own (head? routes) l.store).0 _ _ l' (rw bare at h) in
              let written : l'.store ≡ (here.put own (some r) l.store).1 = ground arith in
              (now, l.store, good, written ∙ rw unlabelled)
        ]
        | inr (b, e) ↦ picked-JustPut b routes r rs l l' good (rw e at h)
      ]

      candidates-IsGood :
          (l : Location S) → IsGood l.store → IsGood (candidates here locale_before req l).1.store
      unfolding candidates
      candidates-IsGood l good =
          let own = laws.get_good now key l.store good in
          let all = laws.get_good now req.aor (here.get key l.store).1 own in
          let plain = laws.get_good now req.aor l.store good in ground arith

  module _ (locale_before : String → String → Bool) where
    found_first :
        (now : ℤ) (req : FindRoutesRequest) (l : Location S) (rs : List Route)
        → ((store now).get (store_key (store now) locale_before req) l.store).0 ≡ ok rs
        → has_any rs ≡ true
        → (find_routes (store now) locale_before req l).0 ≡ ok rs
    unfolding find_routes
    found_first now req l rs read some_found = rw (read, some_found)

    -- After a call has found routes, the first of them is the first that is stored for the call.
    kept_first :
        (now later : ℤ) (req : FindRoutesRequest) (l l' : Location S) (r : Route) (rs : List Route)
        → IsGood l.store
        → (label_string locale_before req.labels ≡ "") ⊎ (b : Backend) × (req.backend ≡ some b)
        → now ≤ℤ later
        → find_routes (store now) locale_before req l ≡ (ok (r ∷ rs), l')
        → is_alive later r ≡ true
        → (rs' : List Route) × (((store later).get
              (store_key (store later) locale_before req)
              l'.store).0
            ≡ ok (r ∷ rs'))
    unfolding find_routes
    kept_first now later req l l' r rs good keyed le found alive =
        let own = store_key (store now) locale_before req in
        let s = ((store now).get own l.store).1 in
        let (known, read, h) = continue-eq ((store now).get own l.store).0 _ _ l' found in
        elim (Bool-cases (has_any known)) [
          | inl e ↦
              let h' : (ok known, record l { store = s }) ≡ (ok (r ∷ rs), l') = rw e at h in
              let (rs', first) =
                laws.get_later now later own r rs l.store good le (read ∙ ap (λ p. p.0) h') alive in
              (
                rs',
                sym (ap (λ p. ((store later).get own p.1.store).0) h')
                    ∙ laws.get_get now later own own l.store good
                    ∙ first,
              )
          | inr e ↦
              let l1 : Location S = record l { store = s } in
              let (routes, _, h') =
                continue-eq (candidates (store now) locale_before req l1).0 _
                  (candidates (store now) locale_before req l1).1 l' (rw e at h) in
              let (before, t, good', put) =
                choose-JustPut now locale_before req routes r rs
                  (candidates (store now) locale_before req l1).1 l'
                  (candidates-IsGood now locale_before req l1 (laws.get_good now own l.store good))
                  keyed h' in
              let (rs', first) = laws.get_put before later own r t good' alive in
              (rs', ap (λ x. ((store later).get own x).0) put ∙ first)
        ]

    -- What a call found first stays what it finds first, as long as that route is alive: if the call
    -- has a backend, or no labels.
    pub find_routes_again :
        (now later : ℤ) (req : FindRoutesRequest) (l l' : Location S) (r : Route) (rs : List Route)
        → IsGood l.store
        → (label_string locale_before req.labels ≡ "") ⊎ (b : Backend) × (req.backend ≡ some b)
        → now ≤ℤ later
        → find_routes (store now) locale_before req l ≡ (ok (r ∷ rs), l')
        → is_alive later r ≡ true
        → (rs' : List Route) × ((find_routes (store later) locale_before req l').0 ≡ ok (r ∷ rs'))
    find_routes_again now later req l l' r rs good keyed le found alive =
        let (rs', read) = kept_first now later req l l' r rs good keyed le found alive in
        (rs', found_first later req l' (r ∷ rs') read refl)

-- ===== src/Location/Service/Limits.antt =====
-- How many contacts an address of record can have, over the in-memory store.
use routr.Prelude.{
  ℕ, suc, ◌≤◌, ◌<◌, ℤ, pos, ◌≡◌, ◌⊎◌, inl, inr, true, false, List, [], ◌∷◌, some, ok, arith, any,
  filter, length, length-filter-le, Bool-cases, eq_refl, string_eq, int_eq, option_eq, ok-injective,
  subst, ◌∙◌, sym,
}
use routr.Sip.{Route}
use routr.Location.Types.{AddRouteRequest}
use routr.Location.Utils.{expired_filter, duplicate_filter, same_contact}
use routr.Location.MemoryStore.{MemoryStore, memory_store, put, get}
use routr.Location.MemoryStore.Contacts.{IsSound, Stored, live-map, added, put-eq, get-eq, get-put}
use routr.Location.Service.{Location, add_route, already_exists, is_full}

-- A route that was registered before is replaced, so the list does not grow.
replaced-lt :
    (r : Route) (es : List Route)
    → any (already_exists r) es ≡ true
    → suc (length (filter (λ x. duplicate_filter x r) es)) ≤ length es
unfolding duplicate_filter
replaced-lt r [] h = cc
replaced-lt r (x ∷ xs) h = elim (Bool-cases (same_contact x r)) [
  | inl same ↦ rw same (omega (arith, length-filter-le (λ y. duplicate_filter y r) xs))
  | inr other ↦ rw other (omega (arith, replaced-lt r xs (ground arith)))
]

below_maximum : (m n : ℕ) → is_full (some (pos m)) n ≡ false → n < m
below_maximum m n h = ground arith

module _ (now : ℤ) (req : AddRouteRequest) (l l' : Location MemoryStore) (rs : List Route) where
  abbrev existing : List Route
  existing = filter (expired_filter now) rs

  add_route-accepted :
      IsSound l.store
      → Stored l.store req.aor rs
      → add_route (memory_store now) req l ≡ (ok tt, l')
      → (l'.store ≡ (put now req.aor (some req.route) l.store).1)
        × ((any (already_exists req.route) existing ≡ true)
            ⊎ (is_full req.max_contacts (length existing) ≡ false))
  unfolding add_route
  add_route-accepted v e h =
      let read : get now req.aor l.store ≡ (ok existing, l.store) =
        get-eq now req.aor l.store v.uncounted ∙ rw (e, live-map now rs) in
      let written = put-eq now req.aor req.route rs l.store e in ground arith

  -- On a sound store, if an address has at most `m` unexpired contacts, and a route is added for it
  -- with the maximum `m` and no exception, then whenever the address is read again it has at most
  -- `m` contacts.
  pub add_route-length-le :
      (later : ℤ) (m : ℕ) (rs' : List Route)
      → IsSound l.store
      → Stored l.store req.aor rs
      → req.max_contacts ≡ some (pos m)
      → length existing ≤ m
      → add_route (memory_store now) req l ≡ (ok tt, l')
      → (get later req.aor l'.store).0 ≡ ok rs'
      → length rs' ≤ m
  add_route-length-le later m rs' v e max fits h read =
      let (written, room) = add_route-accepted v e h in
      let found : rs' ≡ filter (expired_filter later) (added now req.route rs) = ok-injective (
        sym read
        ∙ rw written
            (get-put now later req.aor req.aor req.route rs l.store v e ∙ rw (eq_refl req.aor))) in
      let kept = length-filter-le (expired_filter later) (added now req.route rs) in
      let others = length-filter-le (λ x. duplicate_filter x req.route) existing in
      subst (λ xs. length xs ≤ m) (sym found)
        (elim room [
          | inl old ↦ omega (arith, kept, fits, replaced-lt req.route existing old)
          | inr free ↦
              omega (arith, kept, others, below_maximum m (length existing) (rw max at free))
        ])

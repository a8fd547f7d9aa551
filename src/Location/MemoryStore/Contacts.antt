-- ===== src/Location/MemoryStore/Contacts.antt =====
-- The lists of the in-memory store: what `put` and `get` make of them.
use routr.Prelude.{
  ℕ, ℤ, String, ◌≡◌, refl, Bool, true, false, List, [], ◌∷◌, map, Option, none, some, ok, arith, ap,
  eq_refl, eq_iff, ok-injective, ◌∙◌, ◌==◌, string_eq, filter, All, filter-All, if◌then◌else◌,
  Bool-cases, inl, inr,
}
use routr.Prelude.Int.{◌≤ℤ◌, ◌-ℤ◌}
use routr.Prelude.Maps.{lookup, insert, erase, lookup-insert, lookup-erase}
use routr.Sip.{Route}
use routr.Location.Types.{StoreLaws}
use routr.Location.Utils.{expired_filter, unexpired, duplicate_filter}
use routr.Location.MemoryStore.{
  MemoryStore, memory_store, create, live, without_duplicates, routes_at, put, get, delete, collect,
}

-- No two contacts of the list have the same host, port and transport.
abbrev pub IsDistinct : List Route → Type 0
IsDistinct [] = Unit
IsDistinct (r ∷ rs) = All (λ x. duplicate_filter x r ≡ true) rs × IsDistinct rs

-- What is stored under the key: routes, none of them `undefined`.
abbrev pub Stored : MemoryStore → String → List Route → Type 0
Stored s k rs = routes_at k s ≡ map some rs

pub live-map :
    (now : ℤ) (rs : List Route) → live now (map some rs) ≡ ok (filter (expired_filter now) rs)
unfolding live
live-map now [] = refl
live-map now (r ∷ rs) = ground (arith, live-map now rs)

pub without_duplicates-some :
    (rs : List Route) (r : Route)
    → without_duplicates rs (some r) ≡ ok (filter (λ x. duplicate_filter x r) rs)
unfolding without_duplicates
without_duplicates-some [] r = refl
without_duplicates-some (x ∷ xs) r = refl

-- What `put` leaves under its key.
abbrev pub added : ℤ → Route → List Route → List Route
added now r rs = r ∷ filter (λ x. duplicate_filter x r) (filter (expired_filter now) rs)

pub put-eq :
    (now : ℤ) (k : String) (r : Route) (rs : List Route) (s : MemoryStore)
    → Stored s k rs
    → put now k (some r) s
      ≡ (ok tt, record s { collections = insert k (map some (added now r rs)) s.collections })
unfolding put
put-eq now k r rs s h =
    rw (h, live-map now rs, without_duplicates-some (filter (expired_filter now) rs) r)

-- `get` reads the unexpired routes and changes nothing, if the counter was never set.
pub get-eq :
    (now : ℤ) (k : String) (s : MemoryStore)
    → s.cleanup_count ≡ none
    → get now k s ≡ (live now (routes_at k s), s)
unfolding get collect
get-eq now k s h = ground arith

-- The store that the program builds, whatever was done to it since.
pub record IsSound (s : MemoryStore) : Type 0 where
  pub uncounted : s.cleanup_count ≡ none
  pub at_key : (k : String) → (rs : List Route) × Stored s k rs × IsDistinct rs

All-filter {ℓ} :
    {A : Type 0} (P : A → Type ℓ) (p : A → Bool) (xs : List A) → All P xs → All P (filter p xs)
All-filter P p [] h = tt
All-filter P p (x ∷ xs) h = elim (Bool-cases (p x)) [
  | inl e ↦ rw e (h.0, All-filter P p xs h.1)
  | inr e ↦ rw e (All-filter P p xs h.1)
]

IsDistinct-filter : (p : Route → Bool) (rs : List Route) → IsDistinct rs → IsDistinct (filter p rs)
IsDistinct-filter p [] h = tt
IsDistinct-filter p (r ∷ rs) h = elim (Bool-cases (p r)) [
  | inl e ↦ rw e (All-filter _ p rs h.0, IsDistinct-filter p rs h.1)
  | inr e ↦ rw e (IsDistinct-filter p rs h.1)
]

pub added-IsDistinct :
    (now : ℤ) (r : Route) (rs : List Route) → IsDistinct rs → IsDistinct (added now r rs)
added-IsDistinct now r rs h = (
  filter-All (λ x. duplicate_filter x r) (filter (expired_filter now) rs),
  IsDistinct-filter _ _ (IsDistinct-filter (expired_filter now) rs h),
)

pub create-IsSound : (n : ℕ) → IsSound (create n)
unfolding lookup
create-IsSound n = record { uncounted = refl; at_key = λ k. ([], refl, tt) }

pub routes_at-insert :
    (k j : String) (v : List (Option Route)) (s : MemoryStore)
    → routes_at j (record s { collections = insert k v s.collections })
      ≡ (if k == j then v else routes_at j s)
routes_at-insert k j v s = rw (lookup-insert k j v s.collections) (ground arith)

pub put-IsSound :
    (now : ℤ) (k : String) (r : Route) (s : MemoryStore)
    → IsSound s
    → IsSound (put now k (some r) s).1
put-IsSound now k r s v =
    let (rs, e, d) = v.at_key k in
    rw (put-eq now k r rs s e) (record {
      uncounted = v.uncounted;
      at_key = λ j. elim (Bool-cases (k == j)) [
        | inl same ↦ (
          added now r rs,
          rw (routes_at-insert k j (map some (added now r rs)) s, same),
          added-IsDistinct now r rs d,
        )
        | inr other ↦
            let (rs', e', d') = v.at_key j in
            (rs', rw (routes_at-insert k j (map some (added now r rs)) s, other) e', d')
      ];
    })

pub routes_at-erase :
    (k j : String) (s : MemoryStore)
    → routes_at j (record s { collections = erase k s.collections })
      ≡ (if k == j then [] else routes_at j s)
routes_at-erase k j s = rw (lookup-erase k j s.collections) (ground arith)

pub delete-IsSound : (k : String) (s : MemoryStore) → IsSound s → IsSound (delete k s).1
unfolding delete
delete-IsSound k s v = record {
  uncounted = v.uncounted;
  at_key = λ j. elim (Bool-cases (k == j)) [
    | inl same ↦ ([], rw (routes_at-erase k j s, same), tt)
    | inr other ↦ let (rs, e, d) = v.at_key j in (rs, rw (routes_at-erase k j s, other) e, d)
  ];
}

pub get-IsSound : (now : ℤ) (k : String) (s : MemoryStore) → IsSound s → IsSound (get now k s).1
get-IsSound now k s v = rw (get-eq now k s v.uncounted) v

-- On a sound store, after a route is put under `k`, a read of `k` gives the unexpired ones among the
-- new route, at the head, and the earlier routes that were unexpired and are other contacts; a read
-- of any other key gives what it gave before.
pub get-put :
    (now later : ℤ) (k j : String) (r : Route) (rs : List Route) (s : MemoryStore)
    → IsSound s
    → Stored s k rs
    → (get later j (put now k (some r) s).1).0
      ≡ (if k == j then ok (filter (expired_filter later) (added now r rs)) else (get later j s).0)
get-put now later k j r rs s v e =
    rw
      (
        get-eq later j (put now k (some r) s).1 (put-IsSound now k r s v).uncounted,
        put-eq now k r rs s e,
        routes_at-insert k j (map some (added now r rs)) s,
        get-eq later j s v.uncounted,
      )
      (elim (Bool-cases (k == j)) [
        | inl same ↦ rw same (live-map later (added now r rs))
        | inr other ↦ rw other
      ])

alive_before :
    (now later : ℤ) (expires registered_on : Option ℤ)
    → now ≤ℤ later
    → unexpired later expires registered_on ≡ true
    → unexpired now expires registered_on ≡ true
unfolding unexpired ◌-ℤ◌
alive_before now later (some e) (some r) le h = ground arith
alive_before now later _ _ le h = cc

expired_stays :
    (now later : ℤ) (x : Route)
    → now ≤ℤ later
    → expired_filter now x ≡ false
    → expired_filter later x ≡ false
unfolding expired_filter
expired_stays now later x le dead = elim (Bool-cases (expired_filter later x)) [
  | inl lives ↦ let before = alive_before now later x.expires x.registered_on le lives in cc
  | inr gone ↦ gone
]

-- A route that is read first is read first later too, while it is unexpired.
first_later :
    (now later : ℤ) (r : Route) (rs found : List Route)
    → now ≤ℤ later
    → filter (expired_filter now) found ≡ r ∷ rs
    → expired_filter later r ≡ true
    → (rs' : List Route) × (filter (expired_filter later) found ≡ r ∷ rs')
first_later now later r rs [] le h alive = cc
first_later now later r rs (x ∷ xs) le h alive = elim (Bool-cases (expired_filter now x)) [
  | inl e ↦ let same : x ≡ r = ground arith in (filter (expired_filter later) xs, rw (same, alive))
  | inr e ↦
      let (rs', e') = first_later now later r rs xs le (rw e at h) alive in
      (rs', rw (expired_stays now later x le e) e')
]

-- At any time the in-memory store keeps the laws that the service relies on.
pub memory_store-StoreLaws : StoreLaws memory_store IsSound expired_filter
memory_store-StoreLaws = record {
  get_good = get-IsSound;
  put_good = put-IsSound;
  put_done = λ now k r s v. let (rs, e, _) = v.at_key k in ap (λ p. p.0) (put-eq now k r rs s e);
  get_get = λ now later k j s v. ap (λ p. (get later j p.1).0) (get-eq now k s v.uncounted);
  get_put = λ now later k r s v alive.
      let (rs, e, _) = v.at_key k in
      (
        filter (expired_filter later)
            (filter (λ x. duplicate_filter x r) (filter (expired_filter now) rs)),
        get-put now later k k r rs s v e ∙ rw (eq_refl k, alive),
      );
  get_put_other = λ now later k j r s v other.
      let (rs, e, _) = v.at_key k in get-put now later k j r rs s v e ∙ ground (arith, eq_iff k j);
  get_later = λ now later k r rs s v le h alive.
      let (found, e, _) = v.at_key k in
      let read : get now k s ≡ (ok (filter (expired_filter now) found), s) =
        get-eq now k s v.uncounted ∙ rw (e, live-map now found) in
      let (rs', e') = first_later now later r rs found le (ok-injective (rw read at h)) alive in
      (rs', ap (λ p. p.0) (get-eq later k s v.uncounted) ∙ rw (e, live-map later found, e'));
}

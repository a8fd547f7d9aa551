-- ===== src/Location/Service/LeastSessions.antt =====
-- Least sessions: the head of the sorted routes.
use routr.Prelude.{
  ℤ, ◌≡◌, refl, true, false, List, [], ◌∷◌, Option, none, some, arith, All, All-at, Memᴰ, head?,
  Option-cases, Bool-cases, inl, inr, if◌then◌else◌, sym, subst,
}
use routr.Sip.{Route}
use routr.Location.Service.{insert_sorted, sort_by_sessions, fewer}

-- The route has a session count, as every route that is built from a request has.
abbrev pub IsCounted : Route → Type 0
IsCounted r = (n : ℤ) × (r.session_count ≡ some n)

-- No route of the list has fewer sessions.
abbrev pub IsLeast : Route → List Route → Type 0
IsLeast m rs = All (λ x. fewer x.session_count m.session_count ≡ false) rs

abbrev first_of : Route → Option Route → Route
first_of r none = r
first_of r (some x) = if fewer x.session_count r.session_count then x else r

head?-insert_sorted :
    (r : Route) (xs : List Route) → head? (insert_sorted r xs) ≡ some (first_of r (head? xs))
unfolding insert_sorted
head?-insert_sorted r [] = refl
head?-insert_sorted r (x ∷ xs) = ground arith

eq-nil_of_head?-sort : (rs : List Route) → head? (sort_by_sessions rs) ≡ none → rs ≡ []
unfolding sort_by_sessions
eq-nil_of_head?-sort [] h = refl
eq-nil_of_head?-sort (r ∷ rs) h = cc (head?-insert_sorted r (sort_by_sessions rs))

fewer_antisym : (a b : Option ℤ) → fewer a b ≡ true → fewer b a ≡ false
fewer_antisym (some a) (some b) h = ground arith
fewer_antisym _ _ h = cc

fewer_irrefl : (a : Option ℤ) → fewer a a ≡ false
fewer_irrefl none = refl
fewer_irrefl (some a) = ground arith

at_least_trans :
    (a b c : Route)
    → IsCounted a
    → IsCounted b
    → IsCounted c
    → fewer a.session_count b.session_count ≡ false
    → fewer b.session_count c.session_count ≡ false
    → fewer a.session_count c.session_count ≡ false
at_least_trans a b c (n, ha) (m, hb) (k, hc) p q = ground arith

IsLeast-fewer :
    (r x : Route)
    → IsCounted r
    → IsCounted x
    → fewer x.session_count r.session_count ≡ false
    → (rs : List Route) → All IsCounted rs
    → IsLeast x rs
    → IsLeast r rs
IsLeast-fewer r x cr cx h [] cs l = tt
IsLeast-fewer r x cr cx h (y ∷ ys) cs l =
    (at_least_trans y x r cs.0 cx cr l.0 h, IsLeast-fewer r x cr cx h ys cs.1 l.1)

abbrev Chosen : List Route → Route → Type 0
Chosen rs m = Memᴰ m rs × IsLeast m rs

-- The route that is chosen, if every route has a count, is one of the routes and none of them has
-- fewer sessions.
pub sort_by_sessions-IsLeast :
    (rs : List Route) (m : Route)
    → All IsCounted rs
    → head? (sort_by_sessions rs) ≡ some m
    → Memᴰ m rs × IsLeast m rs
unfolding sort_by_sessions
sort_by_sessions-IsLeast [] m c h = cc
sort_by_sessions-IsLeast (r ∷ rs) m c h =
    let first : first_of r (head? (sort_by_sessions rs)) ≡ m =
      cc (head?-insert_sorted r (sort_by_sessions rs), h) in
    elim (Option-cases (head? (sort_by_sessions rs))) [
      | inl e ↦
          let who : r ≡ m = ground arith in
          subst (Chosen (r ∷ rs)) who (
            Memᴰ.head refl,
            (fewer_irrefl r.session_count, subst (IsLeast r) (sym (eq-nil_of_head?-sort rs e)) tt),
          )
      | inr (x, e) ↦
          let (listed, least) = sort_by_sessions-IsLeast rs x c.1 e in
          elim (Bool-cases (fewer x.session_count r.session_count)) [
            | inl less ↦
                let who : x ≡ m = ground arith in
                subst (Chosen (r ∷ rs)) who
                  (Memᴰ.tail listed, (fewer_antisym x.session_count r.session_count less, least))
            | inr more ↦
                let who : r ≡ m = ground arith in
                subst (Chosen (r ∷ rs)) who (
                  Memᴰ.head refl,
                  (
                    fewer_irrefl r.session_count,
                    IsLeast-fewer r x c.0 (All-at IsCounted rs c.1 listed) more rs c.1 least,
                  ),
                )
          ]
    ]

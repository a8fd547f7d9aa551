-- ===== src/Dispatcher/FindProcessor/FirstMatch.antt =====
-- Which processor a request is given to.
use routr.Prelude.{
  ◌≡◌, refl, true, false, List, [], ◌∷◌, ◌++◌, ok, err, arith, All, >>=-eq-ok, Bool-cases, inl, inr,
  subst, ◌∙◌, ap, sym, ◌⊎◌, Bool, some, Memᴰ, map, any, Option-cases, eq_iff, eq_refl, string_eq,
}
use routr.Sip.{MessageRequest, Method, method_value, same_method}
use routr.Dispatcher.FindProcessor.{
  ProcessorConfig, has_method, filter, find_processor, not_matching_processor_found,
}

-- The value of the method is among those of the methods.
abbrev pub IsListed : Method → List Method → Type 0
IsListed m ms = Memᴰ (method_value m) (map method_value ms)

any-IsListed :
    (m : Method) (ms : List Method) → any (λ x. same_method x m) ms ≡ true → IsListed m ms
any-IsListed m [] h = cc
any-IsListed m (x ∷ xs) h = elim (Bool-cases (same_method x m)) [
  | inl same ↦ Memᴰ.head (sym (ground (arith, eq_iff (method_value x) (method_value m))))
  | inr other ↦ Memᴰ.tail (any-IsListed m xs (ground arith))
]

IsListed-any :
    (m : Method) (ms : List Method) → IsListed m ms → any (λ x. same_method x m) ms ≡ true
IsListed-any m [] l = elim l [ ]
IsListed-any m (x ∷ xs) (Memᴰ.head e) = rw (sym e, eq_refl (method_value m))
IsListed-any m (x ∷ xs) (Memᴰ.tail l) = ground (arith, IsListed-any m xs l)

-- The processor has the method of the request, and its matching function takes the request.
abbrev pub IsTaken : MessageRequest → ProcessorConfig → Type 0
IsTaken req config =
    IsListed req.method config.methods
    × (f : MessageRequest → Bool) × (config.match_func ≡ some f)
    × (f req ≡ true)

-- The processor has not the method of the request, or its matching function refuses the request.
abbrev pub IsRefused : MessageRequest → ProcessorConfig → Type 0
IsRefused req config =
    ¬ IsListed req.method config.methods
    ⊎ ((f : MessageRequest → Bool) × (config.match_func ≡ some f) × (f req ≡ false))

filter-IsTaken :
    (req : MessageRequest) (c : ProcessorConfig) → filter req c ≡ ok true → IsTaken req c
unfolding filter
filter-IsTaken req c h = elim (Bool-cases (has_method c req)) [
  | inr other ↦ absurd (ground arith)
  | inl has ↦ elim (Option-cases c.match_func) [
    | inl e ↦ absurd (ground arith)
    | inr (f, e) ↦ (any-IsListed req.method c.methods has, f, e, ground arith)
  ]
]

filter-IsRefused :
    (req : MessageRequest) (c : ProcessorConfig) → filter req c ≡ ok false → IsRefused req c
unfolding filter
filter-IsRefused req c h = elim (Bool-cases (has_method c req)) [
  | inr other ↦ inl (λ m. absurd (ground (arith, IsListed-any req.method c.methods m)))
  | inl has ↦ elim (Option-cases c.match_func) [
    | inl e ↦ absurd (ground arith)
    | inr (f, e) ↦ inr (f, e, ground arith)
  ]
]

-- The processors before the one that is chosen, and those after it.
pub record IsFirstMatch (list : List ProcessorConfig) (req : MessageRequest)
    (config : ProcessorConfig) : Type 0 where
  pub earlier : List ProcessorConfig
  pub later : List ProcessorConfig
  pub listed : list ≡ earlier ++ config ∷ later
  pub refused : All (IsRefused req) earlier
  pub taken : IsTaken req config

-- The processor that is found is in the list, has the method of the request among its methods and
-- takes it by its matching function; every processor before it has not the method, or refuses the
-- request by its matching function.
pub find_processor-IsFirstMatch :
    (list : List ProcessorConfig) (req : MessageRequest) (config : ProcessorConfig)
    → find_processor list req ≡ ok config
    → IsFirstMatch list req config
unfolding find_processor
find_processor-IsFirstMatch [] req config h = cc
find_processor-IsFirstMatch (c ∷ list) req config h =
    let (hit, tested, h') = >>=-eq-ok (filter req c) _ h in
    elim (Bool-cases hit) [
      | inl taken ↦
          let who : c ≡ config = ground arith in
          record {
            earlier = [];
            later = list;
            listed = ap (λ x. x ∷ list) who;
            refused = tt;
            taken = subst (IsTaken req) who (filter-IsTaken req c (tested ∙ ap ok taken));
          }
      | inr passed ↦
          let found = find_processor-IsFirstMatch list req config (ground arith) in
          record {
            earlier = c ∷ found.earlier;
            later = found.later;
            listed = ap (λ xs. c ∷ xs) found.listed;
            refused = (filter-IsRefused req c (tested ∙ ap ok passed), found.refused);
            taken = found.taken;
          }
    ]

-- No processor is found, with the error NOT_FOUND for the request, when every processor refuses it.
find_processor_none :
    (list : List ProcessorConfig) (req : MessageRequest)
    → All (λ c. filter req c ≡ ok false) list
    → find_processor list req ≡ err (not_matching_processor_found req.ref)
unfolding find_processor
find_processor_none [] req h = refl
find_processor_none (c ∷ list) req h = ground (arith, h.0, find_processor_none list req h.1)

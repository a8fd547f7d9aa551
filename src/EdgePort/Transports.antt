-- ===== src/EdgePort/Transports.antt =====
-- What an accepted configuration does not have: mods/edgeport/src/assertions.ts.
use routr.Prelude.{
  ◌≤◌, ◌≡◌, ◌≢◌, ◌⊎◌, refl, subst, sym, Bool, true, false, ◌||◌, List, [], ◌∷◌, ◌++◌, map, ok,
  arith, ◌==◌, string_eq, nat_eq, ltb, any, filter, length, eq_refl, eq_iff, to_upper, Result,
  Error, throw_if, ◌>>◌, Bool-cases, inl, inr,
}
use routr.EdgePort.{
  Transport, EdgePortConfig, same_protocol, duplicate_condition, uppercased, has_duplicated_proto,
  has_duplicated_port, assert_config,
}

module _ {A : Type 0} (q : A → Bool) where
  any-at : (xs : List A) (a : A) (ys : List A) → any q (xs ++ a ∷ ys) ≡ false → q a ≡ false
  any-at [] a ys h = ground arith
  any-at (x ∷ xs) a ys h = any-at xs a ys (ground arith)

  filter-one :
      (xs : List A) (a : A) (ys : List A) → q a ≡ true → 1 ≤ length (filter q (xs ++ a ∷ ys))
  filter-one [] a ys h = ground arith
  filter-one (x ∷ xs) a ys h = ground (arith, filter-one xs a ys)

  filter-two :
      (xs : List A) (a : A) (ys : List A) (b : A) (zs : List A)
      → q a ≡ true
      → q b ≡ true
      → 2 ≤ length (filter q (xs ++ (a ∷ (ys ++ (b ∷ zs)))))
  filter-two [] a ys b zs h k = ground (arith, filter-one ys b zs)
  filter-two (x ∷ xs) a ys b zs h k = ground (arith, filter-two xs a ys b zs)

module _ {A B : Type 0} (f : A → B) (q : B → Bool) where
  any-map_at :
      (xs : List A) (a : A) (ys : List A) → any q (map f (xs ++ (a ∷ ys))) ≡ false → q (f a) ≡ false
  any-map_at [] a ys h = ground arith
  any-map_at (x ∷ xs) a ys h = any-map_at xs a ys (ground arith)

  any-map_after :
      (xs : List A) (a : A) (ys : List A) (b : A) (zs : List A)
      → any q (map f (xs ++ (a ∷ (ys ++ (b ∷ zs))))) ≡ false
      → q (f b) ≡ false
  any-map_after [] a ys b zs h = any-map_at ys b zs (ground arith)
  any-map_after (x ∷ xs) a ys b zs h = any-map_after xs a ys b zs (ground arith)

not_thrown :
    (b : Bool) (e : Error) (rest : Result (Unit {0}))
    → (throw_if b e >> rest) ≡ ok tt
    → (b ≡ false) × (rest ≡ ok tt)
not_thrown true e rest h = cc
not_thrown false e rest h = (refl, h)

checked :
    (config : EdgePortConfig)
    → assert_config config ≡ ok tt
    → (has_duplicated_proto config.transport ≡ false)
      × (has_duplicated_port config.transport ≡ false)
unfolding assert_config
checked config h =
    let (protocols, rest) = not_thrown (has_duplicated_proto config.transport) _ _ h in
    (protocols, (not_thrown (has_duplicated_port config.transport) _ _ rest).0)

-- UDP or TCP, in any case.
abbrev pub is_plain : Transport → Bool
unfolding to_upper
is_plain t = to_upper t.protocol == "UDP" || to_upper t.protocol == "TCP"

-- Two entries at different places.
module _ (xs : List Transport) (a : Transport) (ys : List Transport) (b : Transport)
    (zs : List Transport) where
  abbrev entries : List Transport
  entries = xs ++ (a ∷ (ys ++ (b ∷ zs)))

  different_protocols : has_duplicated_proto entries ≡ false → a.protocol ≢ b.protocol
  different_protocols h e =
      let few =
        any-at (λ t1. ltb 1 (length (filter (same_protocol t1) entries))) xs a (ys ++ (b ∷ zs)) h in
      let many =
        filter-two (same_protocol a) xs a ys b zs (eq_refl a.protocol)
          ((eq_iff a.protocol b.protocol).1 e) in
      ground arith

  shared_port :
      (t1 t2 : Transport)
      → t1.port ≡ t2.port
      → is_plain t1 ≡ false
      → duplicate_condition (uppercased t1) t2 ≡ true
  unfolding uppercased is_plain
  shared_port t1 t2 same other = ground arith

  abbrev is_shared : Transport → Bool
  is_shared t1 = ltb 1 (length (filter (duplicate_condition t1) entries))

  -- An entry that shares its port with both is UDP or TCP.
  plain_of :
      (t : Transport)
      → t.port ≡ a.port
      → t.port ≡ b.port
      → is_shared (uppercased t) ≡ false
      → is_plain t ≡ true
  plain_of t with_a with_b few = elim (Bool-cases (is_plain t)) [
    | inl plain ↦ plain
    | inr other ↦
        let many =
          filter-two (duplicate_condition (uppercased t)) xs a ys b zs
            (shared_port t a with_a other) (shared_port t b with_b other) in
        absurd (ground arith)
  ]

  plain_ports :
      has_duplicated_port entries ≡ false
      → a.port ≡ b.port
      → (is_plain a ≡ true) × (is_plain b ≡ true)
  plain_ports h same = (
    plain_of a refl same (any-map_at uppercased is_shared xs a (ys ++ (b ∷ zs)) h),
    plain_of b (sym same) refl (any-map_after uppercased is_shared xs a ys b zs h),
  )

  apart_or_plain :
      has_duplicated_port entries ≡ false
      → (a.port ≢ b.port) ⊎ (is_plain a ≡ true) × (is_plain b ≡ true)
  apart_or_plain h = elim (Bool-cases (a.port == b.port)) [
    | inl same ↦ inr (plain_ports h (ground arith))
    | inr other ↦ inl (λ same. ground arith)
  ]

  -- In an accepted configuration, two entries for transports at different places have different
  -- protocols, as they are written, and have different ports or are both UDP or TCP, in any case of
  -- the letters.
  pub accepted_transports :
      (config : EdgePortConfig)
      → config.transport ≡ entries
      → assert_config config ≡ ok tt
      → (a.protocol ≢ b.protocol) × ((a.port ≢ b.port) ⊎ (is_plain a ≡ true) × (is_plain b ≡ true))
  unfolding assert_config
  accepted_transports config given accepted =
      let (protocols, ports) = checked config accepted in
      (
        different_protocols (subst (λ ts. has_duplicated_proto ts ≡ false) given protocols),
        apart_or_plain (subst (λ ts. has_duplicated_port ts ≡ false) given ports),
      )

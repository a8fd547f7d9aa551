-- ===== src/Registry/Store/Held.antt =====
-- Which trunks the store holds an unexpired entry for.
use routr.Prelude.{
  ℤ, String, ◌≡◌, refl, Bool, true, [], ◌∷◌, map, none, some, arith, any, filter, ◌==◌, string_eq,
  eq_iff, eq_refl, Bool-cases, inl, inr, subst,
}
use routr.Prelude.Maps.{Map, lookup, insert, lookup-insert}
use routr.Registry.Types.{RegistrationEntry}
use routr.Registry.Store.{MemoryStore, not_expired, put, list}

abbrev pub is_for : String → RegistrationEntry → Bool
is_for ref entry = entry.trunk_ref == ref

module _ (later : ℤ) where
  pub record IsHeld (ref : String) (s : MemoryStore) : Type 0 where
    pub entry : RegistrationEntry
    pub stored : lookup ref s.entries ≡ some entry
    pub alive : not_expired later entry ≡ true
    pub about : entry.trunk_ref ≡ ref

  lookup-listed :
      (ref : String) (entries : Map RegistrationEntry) (entry : RegistrationEntry)
      → lookup ref entries ≡ some entry
      → not_expired later entry ≡ true
      → entry.trunk_ref ≡ ref
      → any (is_for ref) (filter (not_expired later) (map (λ e. e.1) entries)) ≡ true
  unfolding lookup
  lookup-listed ref [] entry h alive same = cc
  lookup-listed ref (e ∷ es) entry h alive same =
      ground (arith, eq_iff e.0 ref, eq_refl ref, lookup-listed ref es entry)

  pub IsHeld-listed :
      (ref : String) (s : MemoryStore) → IsHeld ref s → any (is_for ref) (list later s) ≡ true
  unfolding list
  IsHeld-listed ref s h = lookup-listed ref s.entries h.entry h.stored h.alive h.about

  module _ (done : ℤ) (key : String) (entry : RegistrationEntry) (s : MemoryStore)
      (uncounted : s.cleanup_count ≡ none) where
    pub put-eq : put done key entry s ≡ record s { entries = insert key entry s.entries }
    unfolding put
    put-eq = ground arith

    -- A counter that was never set is never set.
    pub put-uncounted : (put done key entry s).cleanup_count ≡ none
    put-uncounted = rw put-eq uncounted

    module _ (alive : not_expired later entry ≡ true) (about : entry.trunk_ref ≡ key) where
      pub put-IsHeld : IsHeld key (put done key entry s)
      put-IsHeld = rw put-eq (record {
        entry = entry;
        stored = rw (lookup-insert key key entry s.entries, eq_refl key) refl;
        alive = alive;
        about = about;
      })

      pub put-keeps : (ref : String) → IsHeld ref s → IsHeld ref (put done key entry s)
      put-keeps ref h = elim (Bool-cases (key == ref)) [
        | inl same ↦
            subst (λ k. IsHeld k (put done key entry s)) ((eq_iff key ref).0 same) put-IsHeld
        | inr other ↦ rw put-eq (record {
          entry = h.entry;
          stored = rw (lookup-insert key ref entry s.entries, other) h.stored;
          alive = h.alive;
          about = h.about;
        })
      ]

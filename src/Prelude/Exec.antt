-- ===== src/Prelude/Exec.antt =====
-- Methods that change an object and may throw. What was written before a throw stays written, so
-- the object comes back beside the error too.
use mathlib.Core.Path.{◌≡◌, refl}
use routr.Prelude.Results.{Error, Result, ok, err}

abbrev pub Exec : Type 0 → Type 0 → Type 0
Exec S A = S → Result A × S

module _ {S A : Type 0} where
  abbrev pub pure : A → Exec S A
  pure a s = (ok a, s)

  abbrev pub throw : Error → Exec S A
  throw e s = (err e, s)

  abbrev pub lift : Result A → Exec S A
  lift r s = (r, s)

  abbrev pub gets : (S → A) → Exec S A
  gets f s = (ok (f s), s)

abbrev pub modify : {S : Type 0} → (S → S) → Exec S (Unit {0})
modify f s = (ok tt, f s)

module _ {S A B : Type 0} where
  abbrev pub continue : Result A → (A → Exec S B) → Exec S B
  continue (ok a) f s = f a s
  continue (err e) f s = (err e, s)

  infixl 10 ◌>>=◌
  abbrev pub ◌>>=◌ : Exec S A → (A → Exec S B) → Exec S B
  ◌>>=◌ m f s = continue (m s).0 f (m s).1

infixl 10 ◌>>◌
abbrev pub ◌>>◌ : {S B : Type 0} → Exec S (Unit {0}) → Exec S B → Exec S B
m >> n = m >>= λ _. n

-- try { m } catch (e) { h e }
module _ {S A : Type 0} where
  abbrev pub recover : (Error → Exec S A) → Result A → Exec S A
  recover h (ok a) s = (ok a, s)
  recover h (err e) s = h e s

  abbrev pub attempt : Exec S A → (Error → Exec S A) → Exec S A
  attempt m h s = recover h (m s).0 (m s).1

-- A sequence that returns went through its first part.
pub continue-eq-ok :
    {S A B : Type 0} (r : Result A) (f : A → Exec S B) (s : S) {b : B}
    → (continue r f s).0 ≡ ok b
    → (a : A) × (r ≡ ok a) × ((f a s).0 ≡ ok b)
continue-eq-ok (ok a) f s h = (a, refl, h)
continue-eq-ok (err e) f s h = cc

pub continue-eq :
    {S A B : Type 0} (r : Result A) (f : A → Exec S B) (s s' : S) {b : B}
    → continue r f s ≡ (ok b, s')
    → (a : A) × (r ≡ ok a) × (f a s ≡ (ok b, s'))
continue-eq (ok a) f s s' h = (a, refl, h)
continue-eq (err e) f s s' h = cc

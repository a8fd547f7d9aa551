-- ===== src/Prelude/Results.antt =====
-- Exceptions as values. `type_error` is the engine's own TypeError (a property of `undefined`),
-- `error` a plain `new Error(...)`, and `status` an error with a gRPC code, as errors.ts of each
-- module builds them.
use Prim.Native.String.{String}
use mathlib.Core.Path.{◌≡◌, refl, ap}
use mathlib.Core.Logic.{◌⊎◌, inl, inr}
use mathlib.Core.Bool.{Bool, true, false}
use mathlib.Core.Option.{Option, none, some}
use mathlib.Core.List.{List, [], ◌∷◌}
use native.Mathlib.Omega.{arith}
use routr.Prelude.Lists.{filter}

pub data GrpcStatus : Type 0 where
  not_found invalid_argument unavailable unimplemented already_exists unknown : GrpcStatus

pub data Error : Type 0 where
  type_error : Error
  error : String → Error
  status : GrpcStatus → String → Error

pub data Result {ℓ} (A : Type ℓ) : Type ℓ where
  ok : A → Result A
  err : Error → Result A

-- A property of a value that may be `undefined`.
abbrev pub defined {ℓ} : {A : Type ℓ} → Option A → Result A
defined none = err type_error
defined (some a) = ok a

-- `await` of a value: an exception skips what follows.
infixl 5 ◌>>=◌
abbrev pub ◌>>=◌ {ℓ κ} : {A : Type ℓ} {B : Type κ} → Result A → (A → Result B) → Result B
err reason >>= next = err reason
ok value >>= next = next value

-- if (test) throw e
abbrev pub throw_if : Bool → Error → Result (Unit {0})
throw_if true e = err e
throw_if false e = ok tt

infixl 5 ◌>>◌
abbrev pub ◌>>◌ {ℓ} : {B : Type ℓ} → Result (Unit {0}) → Result B → Result B
first >> then_do = first >>= λ _. then_do

-- `filter` with a predicate that may throw: the first exception ends it.
unfoldable pub filter_r {ℓ} : {A : Type ℓ} → (A → Result Bool) → List A → Result (List A)
filter_r p [] = ok []
filter_r p (x ∷ xs) = do
  keep ← p x
  rest ← filter_r p xs
  elim keep [ true ↦ ok (x ∷ rest) | false ↦ ok rest ]

-- A sequence that gave a value: what its first part gave, and what followed.
pub >>=-eq-ok {ℓ κ} :
    {A : Type ℓ} {B : Type κ} (first : Result A) (next : A → Result B) {last : B}
    → (first >>= next) ≡ ok last
    → (value : A) × (first ≡ ok value) × (next value ≡ ok last)
>>=-eq-ok (err reason) next given = cc
>>=-eq-ok (ok value) next given = (value, refl, given)

-- Whether a test that may throw answers true.
abbrev pub holds : Result Bool → Bool
holds (ok true) = true
holds (ok false) = false
holds (err e) = false

-- A filter that throws nothing is the filter by the answers.
pub filter_r-eq-filter {ℓ} :
    {A : Type ℓ} (p : A → Result Bool) (xs : List A) {ys : List A}
    → filter_r p xs ≡ ok ys
    → ys ≡ filter (λ x. holds (p x)) xs
unfolding filter_r
filter_r-eq-filter p [] h = ground arith
filter_r-eq-filter p (x ∷ xs) {ys} h =
    let (keep, kept, h') = >>=-eq-ok (p x) _ h in
    let (rest, tail, h'') = >>=-eq-ok (filter_r p xs) _ h' in
    ground (arith, filter_r-eq-filter p xs tail)

-- Filtering again keeps everything.
pub filter_r_again {ℓ} :
    {A : Type ℓ} (p : A → Result Bool) (xs : List A) {ys : List A}
    → filter_r p xs ≡ ok ys
    → filter_r p ys ≡ ok ys
unfolding filter_r
filter_r_again p [] h = ground arith
filter_r_again p (x ∷ xs) {ys} h =
    let (keep, kept, h') = >>=-eq-ok (p x) _ h in
    let (rest, tail, h'') = >>=-eq-ok (filter_r p xs) _ h' in
    ground (arith, filter_r_again p xs tail)

pub ok-injective {ℓ} : {A : Type ℓ} {a b : A} → ok a ≡ ok b → a ≡ b
ok-injective {a} e = ap (λ r. elim r [ ok x ↦ x | err _ ↦ a ]) e

pub Result-cases {ℓ} :
    {A : Type ℓ} (r : Result A) → ((a : A) × (r ≡ ok a)) ⊎ ((e : Error) × (r ≡ err e))
Result-cases (ok a) = inl (a, refl)
Result-cases (err e) = inr (e, refl)

-- ===== src/Prelude/Lists.antt =====
-- Arrays: `filter`, `find`, `some`, `includes` with Boolean tests, and lengths in native numbers.
use Prim.Native.Nat.{ℕ, zero, suc, ◌+◌, ◌≤◌}
use mathlib.Core.Path.{◌≡◌, refl, sym, subst, ap, ◌∙◌}
use mathlib.Core.Bool.{Bool, true, false, ◌&&◌, ◌||◌}
use mathlib.Core.Option.{Option, none, some}
use mathlib.Core.List.{List, [], ◌∷◌, ◌++◌, Memᴰ}
use native.Mathlib.Omega.{arith}
use routr.Prelude.Tests.{if◌then◌else◌}

module _ {ℓ} {A : Type ℓ} where
  abbrev pub length : List A → ℕ
  length [] = 0
  length (x ∷ xs) = suc (length xs)

  abbrev pub get_elem? : List A → ℕ → Option A
  get_elem? [] i = none
  get_elem? (x ∷ xs) zero = some x
  get_elem? (x ∷ xs) (suc i) = get_elem? xs i

  abbrev pub filter : (A → Bool) → List A → List A
  filter p [] = []
  filter p (x ∷ xs) = if p x then x ∷ filter p xs else filter p xs

  abbrev pub find : (A → Bool) → List A → Option A
  find p [] = none
  find p (x ∷ xs) = if p x then some x else find p xs

  abbrev pub any : (A → Bool) → List A → Bool
  any p [] = false
  any p (x ∷ xs) = p x || any p xs

  abbrev pub all : (A → Bool) → List A → Bool
  all p [] = true
  all p (x ∷ xs) = p x && all p xs

  abbrev pub drop : ℕ → List A → List A
  drop zero xs = xs
  drop (suc n) [] = []
  drop (suc n) (x ∷ xs) = drop n xs

  abbrev pub take : ℕ → List A → List A
  take zero xs = []
  take (suc n) [] = []
  take (suc n) (x ∷ xs) = x ∷ take n xs

  -- x[x.length - 1]
  abbrev pub last? : List A → Option A
  last? [] = none
  last? (x ∷ []) = some x
  last? (x ∷ y ∷ rest) = last? (y ∷ rest)

  -- xs.flat()
  abbrev pub flat : List (List A) → List A
  flat [] = []
  flat (xs ∷ xss) = xs ++ flat xss

  -- x[0]
  abbrev pub head? : List A → Option A
  head? [] = none
  head? (x ∷ xs) = some x

  -- Array.shift()
  abbrev pub tail : List A → List A
  tail [] = []
  tail (x ∷ xs) = xs

  abbrev pub get_or : Option A → A → A
  get_or none d = d
  get_or (some a) d = a

module _ {ℓ} {A : Type ℓ} where
  pub length-append : (xs ys : List A) → length (xs ++ ys) ≡ length xs + length ys
  length-append [] ys = omega arith
  length-append (x ∷ xs) ys = omega (arith, length-append xs ys)

  pub length-filter-le : (p : A → Bool) (xs : List A) → length (filter p xs) ≤ length xs
  length-filter-le p [] = omega arith
  length-filter-le p (x ∷ xs) = ground (arith, length-filter-le p xs)

  pub filter-filter : (p : A → Bool) (xs : List A) → filter p (filter p xs) ≡ filter p xs
  filter-filter p [] = refl
  filter-filter p (x ∷ xs) = ground (arith, filter-filter p xs)

module _ {ℓ κ} {A : Type ℓ} (P : A → Type κ) where
  abbrev pub All : List A → Type κ
  All [] = Unit
  All (x ∷ xs) = P x × All xs

module _ {ℓ} {A : Type ℓ} where
  pub filter-All : (p : A → Bool) (xs : List A) → All (λ x. p x ≡ true) (filter p xs)
  filter-All p [] = tt
  filter-All p (x ∷ xs) = ground (arith, filter-All p xs)

  pub filter_of_All : (p : A → Bool) (xs : List A) → All (λ x. p x ≡ true) xs → filter p xs ≡ xs
  filter_of_All p [] h = refl
  filter_of_All p (x ∷ xs) h = ground (arith, filter_of_All p xs)

  pub all-All : (p : A → Bool) (xs : List A) → all p xs ≡ true → All (λ x. p x ≡ true) xs
  all-All p [] h = tt
  all-All p (x ∷ xs) h = ground (arith, all-All p xs)

  pub find-all :
      (p q : A → Bool) (xs : List A) (a : A)
      → find p xs ≡ some a
      → all q xs ≡ true
      → (p a ≡ true) × (q a ≡ true)
  find-all p q [] a h k = cc
  find-all p q (x ∷ xs) a h k = ground (arith, find-all p q xs a)

  pub find-append :
      (p : A → Bool) (xs ys : List A) → All (λ x. p x ≡ false) xs → find p (xs ++ ys) ≡ find p ys
  find-append p [] ys h = refl
  find-append p (x ∷ xs) ys h = ground (arith, find-append p xs ys)

  pub drop-eq-cons :
      (n : ℕ) (xs ys : List A) (x : A)
      → drop n xs ≡ x ∷ ys
      → (get_elem? xs n ≡ some x) × (drop (suc n) xs ≡ ys) × (length xs ≡ n + suc (length ys))
  drop-eq-cons zero [] ys x h = cc
  drop-eq-cons zero (z ∷ zs) ys x h = ground arith
  drop-eq-cons (suc n) [] ys x h = cc
  drop-eq-cons (suc n) (z ∷ zs) ys x h =
      let (got, dropped, len) = drop-eq-cons n zs ys x h in (got, dropped, omega arith)

  pub get_elem?-drop : (n i : ℕ) (xs : List A) → get_elem? (drop n xs) i ≡ get_elem? xs (n + i)
  get_elem?-drop zero i xs = ap (get_elem? xs) (omega arith)
  get_elem?-drop (suc n) i [] = refl
  get_elem?-drop (suc n) i (x ∷ xs) =
      let shift : suc (n + i) ≡ suc n + i = omega arith in
      get_elem?-drop n i xs ∙ ap (get_elem? (x ∷ xs)) shift

  drop_none : (n : ℕ) → ◌≡◌ {A = List A} (drop n []) []
  drop_none zero = refl
  drop_none (suc n) = refl

  pub length-drop-le : (n : ℕ) (xs : List A) → length (drop n xs) ≤ length xs
  length-drop-le zero xs = omega arith
  length-drop-le (suc n) [] = omega arith
  length-drop-le (suc n) (x ∷ xs) = omega (arith, length-drop-le n xs)

  pub drop-drop : (n i : ℕ) (xs : List A) → drop i (drop n xs) ≡ drop (n + i) xs
  drop-drop zero i xs = ap (λ k. drop k xs) (omega arith)
  drop-drop (suc n) i [] = drop_none i ∙ sym (drop_none (suc n + i))
  drop-drop (suc n) i (x ∷ xs) =
      let shift : suc (n + i) ≡ suc n + i = omega arith in
      drop-drop n i xs ∙ ap (λ j. drop j (x ∷ xs)) shift

  -- The first elements of a list end at an index, and the list goes on after it.
  pub take-ends :
      (k : ℕ) (x : A) (xs : List A)
      → (i : ℕ) × (a : A) × (last? (take (suc k) (x ∷ xs)) ≡ some a)
        × (get_elem? (x ∷ xs) i ≡ some a)
        × (take (suc k) (x ∷ xs) ++ drop (suc i) (x ∷ xs) ≡ x ∷ xs)
  take-ends zero x [] = (0, x, refl, refl, refl)
  take-ends (suc k) x [] = (0, x, refl, refl, refl)
  take-ends zero x (y ∷ xs) = (0, x, refl, refl, refl)
  take-ends (suc k) x (y ∷ xs) =
      let (i, a, last, at, rest) = take-ends k y xs in (suc i, a, last, at, ap (λ zs. x ∷ zs) rest)

  pub get_elem?-beyond : (xs : List A) (n : ℕ) → length xs ≤ n → get_elem? xs n ≡ none
  get_elem?-beyond [] n h = refl
  get_elem?-beyond (x ∷ xs) zero h = absurd (omega arith)
  get_elem?-beyond (x ∷ xs) (suc n) h = get_elem?-beyond xs n (omega arith)

module _ {ℓ κ μ} {A : Type ℓ} {P : A → Type κ} {Q : A → Type μ} where
  pub All-map_impl : ((x : A) → P x → Q x) → (xs : List A) → All P xs → All Q xs
  All-map_impl f [] h = tt
  All-map_impl f (x ∷ xs) h = (f x h.0, All-map_impl f xs h.1)

module _ {ℓ κ} {A : Type ℓ} (P : A → Type κ) where
  pub All-at : {a : A} (xs : List A) → All P xs → Memᴰ a xs → P a
  All-at [] h m = elim m [ ]
  All-at (x ∷ xs) h (Memᴰ.head e) = subst P (sym e) h.0
  All-at (x ∷ xs) h (Memᴰ.tail m) = All-at xs h.1 m

-- ===== src/Location/Service/RoundRobin.antt =====
-- Round robin: the turns that the routes of a backend take.
use routr.Prelude.{
  ℕ, zero, suc, ◌≤◌, String, ◌≡◌, refl, List, [], ◌∷◌, map, Option, none, some, Result, ok, arith,
  eq_refl, length, drop, drop-eq-cons, get_elem?-beyond,
}
use routr.Prelude.Maps.{lookup-insert}
use routr.Sip.{Route}
use routr.Location.Service.{Location, round_robin, position_of, next_position}

module _ {S : Type 0} where
  position-round_robin :
      (ref : String) (routes : List Route) (l : Location S)
      → position_of ref (round_robin ref routes l).1
        ≡ next_position (position_of ref l) (length routes)
  unfolding round_robin
  position-round_robin ref routes l = rw (lookup-insert ref ref, eq_refl ref)

  -- `n` calls for the same backend, one after the other, on the same routes.
  pub turns : ℕ → String → List Route → Location S → List (Result (Option Route)) × Location S
  turns zero ref routes l = ([], l)
  turns (suc n) ref routes l =
      let (later, l') = turns n ref routes (round_robin ref routes l).1 in
      ((round_robin ref routes l).0 ∷ later, l')

  turns_from :
      (p : ℕ) (ref : String) (routes : List Route) (r : Route) (rest : List Route) (l : Location S)
      → drop p routes ≡ r ∷ rest
      → position_of ref l ≡ p
      → ((turns (length (r ∷ rest)) ref routes l).0 ≡ map (λ x. ok (some x)) (r ∷ rest))
        × (position_of ref (turns (length (r ∷ rest)) ref routes l).1 ≡ 0)
  unfolding turns round_robin
  turns_from p ref routes r [] l h e =
      let (got, _, len) = drop-eq-cons p routes [] r h in
      let moved = position-round_robin ref routes l in (ground arith, ground arith)
  turns_from p ref routes r (x ∷ xs) l h e =
      let (got, dropped, len) = drop-eq-cons p routes (x ∷ xs) r h in
      let moved = position-round_robin ref routes l in
      let (later, back) =
        turns_from (suc p) ref routes x xs (round_robin ref routes l).1 dropped (ground arith) in
      (ground arith, back)

  -- From position 0, as many calls as there are routes return every route once, in the order of the
  -- list, and leave the position at 0 for the next round.
  pub turns_lem :
      (ref : String) (r : Route) (rest : List Route) (l : Location S)
      → position_of ref l ≡ 0
      → ((turns (length (r ∷ rest)) ref (r ∷ rest) l).0 ≡ map (λ x. ok (some x)) (r ∷ rest))
        × (position_of ref (turns (length (r ∷ rest)) ref (r ∷ rest) l).1 ≡ 0)
  turns_lem ref r rest l e = turns_from 0 ref (r ∷ rest) r rest l refl e

  -- A position that is past the end, as when routes have gone since the last call, gives no route,
  -- though there are routes; the position is put back to 0.
  round_robin_stale :
      (ref : String) (routes : List Route) (l : Location S)
      → length routes ≤ position_of ref l
      → ((round_robin ref routes l).0 ≡ ok none)
        × (position_of ref (round_robin ref routes l).1 ≡ 0)
  unfolding round_robin
  round_robin_stale ref routes l h = (
    rw (get_elem?-beyond routes (position_of ref l) h),
    ground (arith, position-round_robin ref routes l),
  )

-- ===== src/Ctl/Paging/Complete.antt =====
-- The pages that a command shows, against the rows of the database: mods/ctl/src/utils.ts over
-- mods/pgdata/src/api/list.ts.
use routr.Prelude.{
  ℕ, zero, suc, ◌+◌, ◌<◌, String, ◌≡◌, refl, sym, ap, subst, ◌∙◌, Bool, true, false, List, [], ◌∷◌,
  ◌++◌, map, Option, none, some, truthy, arith, length, take, drop, flat, last?, get_elem?,
  take-ends, get_elem?-drop, drop-drop, length-drop-le, ◌||◌, ◌==◌, nat_eq,
}
use routr.PgData.Api.{done, Manager, Reply}
use routr.PgData.Api.Reads.{Reader, ListRequest, ListResponse, list, listed, page_of}
use routr.Ctl.Paging.{Shown, show_pages, show_page, token_of, show_paginated_list}

-- `findMany` answers the rows in the order it was asked for: from the first one without a cursor, and
-- after the row of the cursor when it skips one. A reference is not empty.
pub record IsPaged {Row : Type 0} (db : Reader Row) (rows : List Row) : Type 0 where
  pub start :
      (n : ℕ) → db.find_many (record { take = n; skip = 0; cursor = none }) ≡ done (take n rows)
  pub after :
      (n i : ℕ) (row : Row)
      → get_elem? rows i ≡ some row
      → db.find_many (record { take = n; skip = 1; cursor = some (db.ref_of_row row) })
        ≡ done (take n (drop (suc i) rows))
  pub referable :
      (i : ℕ) (row : Row) → get_elem? rows i ≡ some row → truthy (some (db.ref_of_row row)) ≡ true

map-append : {A B : Type 0} (f : A → B) (xs ys : List A) → map f (xs ++ ys) ≡ map f xs ++ map f ys
map-append f [] ys = refl
map-append f (x ∷ xs) ys = ap (λ zs. f x ∷ zs) (map-append f xs ys)

or_true : (a b : Bool) → b ≡ true → (a || b) ≡ true
or_true a b h = ground arith

module _ {Req Data Row Dto : Type 0} (m : Manager Req Data Row Dto) (db : Reader Row)
    (rows : List Row) (paged : IsPaged db rows) (k : ℕ) (answers : ℕ → Bool)
    (on : (n : ℕ) → answers n ≡ true) where
  abbrev dto : Row → Dto
  dto row = m.map_to_dto (m.encode_extended row)

  abbrev asked : Option String → ListRequest
  asked token = record { page_size = suc k; page_token = token }

  pub record ShowsAll (remaining : List Row) (shown : Option (Shown Dto)) : Type 0 where
    pub result : Shown Dto
    pub ends : shown ≡ some result
    pub no_failure : result.failed ≡ false
    pub complete : flat result.pages ≡ map dto remaining

  abbrev show_reply : (fuel n : ℕ) → Reply (ListResponse Dto) → Option (Shown Dto)
  show_reply fuel n reply = show_page (list m db) (suc k) answers n reply (
      show_pages (list m db) (suc k) answers fuel (n + 1)
        (token_of (list m db) (suc k) answers reply))

  -- A page that is not empty, when the loop shows all that comes after it.
  shows_page :
      (fuel n p : ℕ) (x a : Row) (xs : List Row) (i : ℕ)
      → last? (take (suc k) (x ∷ xs)) ≡ some a
      → truthy (some (db.ref_of_row a)) ≡ true
      → take (suc k) (x ∷ xs) ++ drop (suc i) (x ∷ xs) ≡ x ∷ xs
      → ShowsAll
          (drop (suc i) (x ∷ xs))
          (show_pages (list m db) (suc k) answers fuel (n + 1) (some (db.ref_of_row a)))
      → ShowsAll (x ∷ xs) (show_reply fuel n (listed m db (done (take (suc k) (x ∷ xs)))))
  shows_page fuel n p x a xs i last named parts rest = record {
    result = record rest.result { pages = map dto (take (suc k) (x ∷ xs)) ∷ rest.result.pages };
    ends = rw (or_true (n == 0) (answers n) (on n), last, named, rest.ends) refl;
    no_failure = rest.no_failure;
    complete =
        ap (λ shown. map dto (take (suc k) (x ∷ xs)) ++ shown) rest.complete
        ∙ sym (map-append dto (take (suc k) (x ∷ xs)) (drop (suc i) (x ∷ xs)))
        ∙ ap (map dto) parts;
  }

  shows_rows :
      (fuel n p : ℕ) (xs : List Row)
      → drop p rows ≡ xs
      → length xs < suc fuel
      → ((p' : ℕ) (token : Option String)
          → db.find_many (page_of m db (asked token)) ≡ done (take (suc k) (drop p' rows))
          → length (drop p' rows) < fuel
          → ShowsAll (drop p' rows) (show_pages (list m db) (suc k) answers fuel (n + 1) token))
      → ShowsAll xs (show_reply fuel n (listed m db (done (take (suc k) xs))))
  shows_rows fuel n p [] at enough later = record {
    result = _;
    ends = refl;
    no_failure = refl;
    complete = refl;
  }
  shows_rows fuel n p (x ∷ xs) at enough later =
      let (i, a, last, here, parts) = take-ends k x xs in
      let there : get_elem? rows (p + i) ≡ some a =
        sym (get_elem?-drop p i rows) ∙ ap (λ ys. get_elem? ys i) at ∙ here in
      let shift : suc (p + i) ≡ p + suc i = omega arith in
      let rest : drop (suc (p + i)) rows ≡ drop (suc i) (x ∷ xs) =
        ap (λ j. drop j rows) shift ∙ sym (drop-drop p (suc i) rows) ∙ ap (drop (suc i)) at in
      let named = paged.referable (p + i) a there in
      shows_page fuel n p x a xs i last named parts (
        subst
          (λ ys.
            ShowsAll ys
              (show_pages (list m db) (suc k) answers fuel (n + 1) (some (db.ref_of_row a))))
          rest
          (later (suc (p + i)) (some (db.ref_of_row a))
            (rw named (paged.after (suc k) (p + i) a there))
            (omega (arith, ap length rest, length-drop-le i xs))))

  shows_from :
      (fuel n p : ℕ) (token : Option String)
      → db.find_many (page_of m db (asked token)) ≡ done (take (suc k) (drop p rows))
      → length (drop p rows) < fuel
      → ShowsAll (drop p rows) (show_pages (list m db) (suc k) answers fuel n token)
  unfolding show_pages list
  shows_from zero n p token found enough = absurd (omega arith)
  shows_from (suc fuel) n p token found enough =
      rw found (shows_rows fuel n p (drop p rows) refl enough (shows_from fuel (n + 1)))

  -- A user who always goes on is shown every row of the database once, in the order of the database,
  -- and the loop ends: it does so in as many turns as there are rows, and one more. The size of a page
  -- is not zero, and the database answers pages as documented.
  pub shows_all :
      (fuel : ℕ)
      → length rows < fuel
      → ShowsAll rows (show_paginated_list (list m db) (suc k) answers fuel)
  shows_all fuel enough = shows_from fuel 0 0 (some "") (paged.start (suc k)) enough

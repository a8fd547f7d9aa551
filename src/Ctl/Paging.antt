-- ===== src/Ctl/Paging.antt =====
-- `showPaginatedList` of mods/ctl/src/utils.ts, without the case of one resource.
pub mod Complete
use routr.Prelude.{
  ℕ, zero, suc, ◌+◌, ◌≤◌, ◌<◌, String, ◌≡◌, refl, Bool, true, false, not, ◌&&◌, List, [], ◌∷◌, ◌++◌,
  map, Option, none, some, ◌||◌, ◌==◌, nat_eq, truthy, if◌then◌else◌, arith, length,
}
use routr.PgData.Api.{Reply, answered, refused, passed_on}
use routr.PgData.Api.Reads.{ListRequest, ListResponse}

-- What has been shown when the command ends: the pages, and whether an error ended it.
pub record Shown (Dto : Type 0) : Type 0 where
  pub pages : List (List Dto)
  pub failed : Bool

abbrev ended : {Dto : Type 0} → Bool → Option (Shown Dto)
ended failed = some (record { pages = []; failed = failed })

abbrev and_then : {Dto : Type 0} → List Dto → Option (Shown Dto) → Option (Shown Dto)
and_then items none = none
and_then items (some rest) = some (record rest { pages = items ∷ rest.pages })

module _ {Dto : Type 0} (list : ListRequest → Reply (ListResponse Dto)) (page_size : ℕ)
    (answers : ℕ → Bool) where
  -- What is shown after `n` pages, given the rest of the loop. From the second page on, the user says
  -- whether to go on.
  abbrev pub show_items : ℕ → List Dto → Option String → Option (Shown Dto) → Option (Shown Dto)
  show_items n [] token rest = ended false
  show_items n (x ∷ items) token rest =
      if n == 0 || answers n
      then and_then (x ∷ items) (if truthy token then rest else ended false)
      else ended false

  abbrev pub show_page : ℕ → Reply (ListResponse Dto) → Option (Shown Dto) → Option (Shown Dto)
  show_page n (answered response) rest = show_items n response.items response.next_page_token rest
  show_page n _ rest = ended true

  abbrev pub token_of : Reply (ListResponse Dto) → Option String
  token_of (answered response) = response.next_page_token
  token_of _ = none

  -- The loop, on fuel: `none` is running out of it.
  unfoldable pub show_pages : ℕ → ℕ → Option String → Option (Shown Dto)
  show_pages zero n token = none
  show_pages (suc fuel) n token =
      let reply = list (record { page_size = page_size; page_token = token }) in
      show_page n reply (show_pages fuel (n + 1) (token_of reply))

abbrev pub show_paginated_list :
    {Dto : Type 0}
    → (ListRequest → Reply (ListResponse Dto))
    → ℕ
    → (ℕ → Bool)
    → ℕ
    → Option (Shown Dto)
show_paginated_list list page_size answers fuel = show_pages list page_size answers fuel 0 (some "")

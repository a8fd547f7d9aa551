-- ===== src/Tests/Storing.antt =====
-- The data services and the command line.
use routr.Prelude.{
  show_number, parse_int, ℕ, pos, suc, zero, String, ◌≡◌, ◌↔◌, refl, ap, sym, subst, true, false,
  not, List, [], ◌∷◌, none, some, arith, All, ◌==◌, string_eq, nat_eq, take, drop, get_elem?,
  includes, truthy, if◌then◌else◌, get_or,
}
use routr.Validations
use routr.Validations.Assertions.{passes, TrunkUri, has_valid_outbound_uris_or_throw}
use routr.Validations.Assertions.Uris.{is_usable, uris_accepted}
use routr.PgData.Requests
use routr.PgData.Requests.{Request}
use routr.PgData.Managers.{Environment, valid_or_throw_create, valid_or_throw_update}
use routr.PgData.Managers.Updates.{update_of_create}
use routr.PgData.Api.{Manager, Writer, done, failed, initialization, Outcome, create, update}
use routr.PgData.Api.Writes.{has_silent_uri, create_unanswered, update_refused}
use routr.PgData.Api.Reads.{Reader, Page, list}
use routr.Ctl.Paging.{show_paginated_list}
use routr.Ctl.Paging.Complete.{IsPaged, ShowsAll, shows_all}
use routr.Ctl.Validators.Agreement.{IsTyped, create-IsTyped_iff}

-- What the texts of this module need of the packages.
abbrev packages : Validations.Packages
packages = record {
  is_length = λ low high s. not (s == "");
  is_fqdn = λ s. s == "sip.local";
  is_ip = λ s. s == "10.0.0.5";
  is_ip_4 = λ s. s == "10.0.0.5";
  is_ip_range_4 = λ s. s == "10.0.0.0/24";
  is_port = λ s. s == "5060";
  is_int = λ s. s == "1";
  is_phone = λ number country mobile. true;
}

abbrev environment : Environment
environment = record { enforce_e164 = false; with_mobile_prefix = false }

abbrev peer : Request
peer = Requests.Request.peer (record {
  ref = some "peer-1";
  name = some "Asterisk";
  username = some "asterisk";
  aor = some "backend:voice";
  contact_addr = some "sip.local:5060";
})

update_of_create_example : valid_or_throw_update packages environment peer ≡ passes
unfolding valid_or_throw_create includes
update_of_create_example = update_of_create packages environment peer refl refl

abbrev uri : TrunkUri
uri = record {
  host = some "sip.local";
  port = some (pos 5060);
  priority = some (pos 1);
  weight = none;
}

uris_accepted_example :
    (has_valid_outbound_uris_or_throw packages (some (uri ∷ [])) ≡ passes)
    ↔ All (λ u. is_usable packages u ≡ true) (uri ∷ [])
uris_accepted_example = uris_accepted packages (uri ∷ [])

abbrev trunk : Request
trunk = Requests.Request.trunk (record {
  ref = some "trunk-1";
  name = some "Provider";
  inbound_uri = some "sip.local";
  uris = some (uri ∷ []);
})

abbrev manager : Manager Request Request Request Request
manager = record {
  request_of = λ r. r;
  map_to_prisma = λ r. r;
  map_to_dto = λ r. r;
  decode_extended = λ r. r;
  encode_extended = λ r. r;
}

-- A database that cannot be reached.
abbrev writer : Writer ℕ Request Request
writer = record {
  create_row = λ r db. (failed initialization, db);
  update_row = λ ref r db. (failed initialization, db);
  delete_row = λ ref db. (failed initialization, db);
  delete_uris = λ ref db. (failed initialization, db);
}

create_unanswered_example : has_silent_uri packages trunk ≡ true
unfolding create valid_or_throw_create show_number parse_int
create_unanswered_example = create_unanswered packages environment manager writer trunk 7 refl

update_refused_example : (update packages environment manager writer peer 7).1 ≡ 7
unfolding update valid_or_throw_update includes
update_refused_example =
    update_refused packages environment manager writer (λ ref row db db' e h. ap (λ o. o.1) (sym h))
      peer 7 refl refl

create-IsTyped_iff_example :
    (valid_or_throw_create packages environment peer ≡ passes)
    ↔ IsTyped packages environment "Asterisk" "asterisk" "backend:voice" "sip.local:5060"
create-IsTyped_iff_example =
    create-IsTyped_iff packages environment (some "peer-1") "Asterisk" "asterisk" "backend:voice"
      "sip.local:5060"

abbrev rows : List String
rows = "a" ∷ "b" ∷ "c" ∷ []

abbrev rows_after : String → List String → List String
rows_after cursor [] = []
rows_after cursor (row ∷ more) = if row == cursor then more else rows_after cursor more

abbrev pages : Page → Outcome (List String)
pages page =
    done (take page.take (elim page.cursor [ none ↦ rows | some cursor ↦ rows_after cursor rows ]))

abbrev reader : Reader String
reader = record {
  find_unique = λ ref. done ref;
  find_many = pages;
  find_where = λ name value. done rows;
  ref_of_row = λ row. row;
}

abbrev strings : Manager Request String String String
strings = record {
  request_of = λ r. r;
  map_to_prisma = λ r. "";
  map_to_dto = λ row. row;
  decode_extended = λ r. r;
  encode_extended = λ row. row;
}

injective : {a b : String} → some a ≡ some b → a ≡ b
injective {a} e = ap (λ o. get_or o a) e

Follows : ℕ → ℕ → String → Type 0
Follows n i row =
    pages (record { take = n; skip = 1; cursor = some row }) ≡ done (take n (drop (suc i) rows))

pages_after : (n i : ℕ) (row : String) → get_elem? rows i ≡ some row → Follows n i row
unfolding Follows
pages_after n zero row h = subst (Follows n 0) (injective h) refl
pages_after n (suc zero) row h = subst (Follows n 1) (injective h) refl
pages_after n (suc (suc zero)) row h = subst (Follows n 2) (injective h) refl
pages_after n (suc (suc (suc i))) row h = cc

Named : String → Type 0
Named row = truthy (some row) ≡ true

pages-Named : (i : ℕ) (row : String) → get_elem? rows i ≡ some row → Named row
unfolding Named
pages-Named zero row h = subst Named (injective h) refl
pages-Named (suc zero) row h = subst Named (injective h) refl
pages-Named (suc (suc zero)) row h = subst Named (injective h) refl
pages-Named (suc (suc (suc i))) row h = cc

reader-IsPaged : IsPaged reader rows
unfolding Follows Named
reader-IsPaged = record { start = λ n. refl; after = pages_after; referable = pages-Named }

shows_all_example :
    ShowsAll strings reader rows reader-IsPaged 1
      (λ n. true)
      (λ n. refl)
      rows
      (show_paginated_list (list strings reader) 2 (λ n. true) 4)
shows_all_example =
    shows_all strings reader rows reader-IsPaged 1 (λ n. true) (λ n. refl) 4 (omega arith)

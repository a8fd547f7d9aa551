-- ===== src/PgData/Api/Writes.antt =====
-- What create and update leave, and when they answer: mods/pgdata/src/api.
use routr.Prelude.{
  show_number, String, ◌≡◌, refl, Bool, true, false, not, ◌&&◌, List, [], ◌∷◌, Option, none, some,
  arith, ok, any, ◌≢◌, ◌⊎◌, inl, inr, Bool-cases,
}
use routr.Validations.{Packages, Check, valid}
use routr.Validations.Rules.{
  is_valid_weight, has_host, has_inbound_uri, is_valid_inbound_uri, is_valid_host, is_valid_port,
  is_valid_priority,
}
use routr.Validations.Checks.{has_name, is_valid_name}
use routr.Validations.Assertions.{
  Assertion, passes, throws, ◌>>◌, if_bad, thrown, or_throw, TrunkUri, each_uri,
  is_valid_outbound_uri_or_throw, has_valid_outbound_uris_or_throw,
}
use routr.PgData.Requests.{Request, acl, credentials, agent, peer, domain, trunk, number, ref_of}
use routr.PgData.Managers.{Environment, valid_or_throw_create, valid_or_throw_update}
use routr.PgData.Api.{
  Failure, Outcome, done, failed, Reply, answered, Manager, Writer, has_uris, catch_update, create,
  update, update_valid, reply_with,
}

abbrev pub is_answered {ℓ} : {A : Type 0} → {B : Type ℓ} → Option (Reply A) × B → Bool
is_answered (some (answered a), _) = true
is_answered (_, _) = false

abbrev is_accepted : Check → Bool
is_accepted (ok valid) = true
is_accepted _ = false

if_bad-none :
    (c d : Check)
    → if_bad c (thrown d) ≡ throws none
    → (is_accepted c ≡ false) × (is_accepted d ≡ true)
if_bad-none c d h = ground arith

if_bad-same : (c : Check) → if_bad c (thrown c) ≢ throws none
if_bad-same c h = ground arith

>>-none : (a b : Assertion) → (a >> b) ≡ throws none → (a ≡ throws none) ⊎ (b ≡ throws none)
>>-none passes b h = inr h
>>-none (throws e) b h = inl h

>>-later : (c : Check) (b : Assertion) → (if_bad c (thrown c) >> b) ≡ throws none → b ≡ throws none
>>-later c b h = elim (>>-none (if_bad c (thrown c)) b h) [
  | inl first ↦ absurd (if_bad-same c first)
  | inr later ↦ later
]

>>-checked : (c : Check) (b : Assertion) → (or_throw c >> b) ≡ throws none → b ≡ throws none
>>-checked c b h = ground arith

module _ (p : Packages) where
  -- The weight is bad, and the priority would do as a weight.
  abbrev pub is_silent : TrunkUri → Bool
  is_silent uri =
      not (is_accepted (is_valid_weight p (show_number uri.weight)))
      && is_accepted (is_valid_weight p (show_number uri.priority))

  abbrev pub has_silent_uri : Request → Bool
  has_silent_uri (trunk r) = elim r.uris [ none ↦ false | some uris ↦ any is_silent uris ]
  has_silent_uri _ = false

  silent_uri :
      (uri : TrunkUri) → is_valid_outbound_uri_or_throw p uri ≡ throws none → is_silent uri ≡ true
  silent_uri uri h =
      let host = >>-later (has_host uri.host) _ h in
      let valid_host = >>-later (is_valid_host p uri.host) _ host in
      let port = >>-later (is_valid_port p (show_number uri.port)) _ valid_host in
      let priority = >>-later (is_valid_priority p (show_number uri.priority)) _ port in
      let (weight, as_weight) = if_bad-none _ _ priority in rw (weight, as_weight) refl

  silent_uris : (uris : List TrunkUri) → each_uri p uris ≡ throws none → any is_silent uris ≡ true
  silent_uris [] h = cc
  silent_uris (uri ∷ uris) h =
      elim (>>-none (is_valid_outbound_uri_or_throw p uri) (each_uri p uris) h) [
        | inl now ↦ rw (silent_uri uri now) refl
        | inr later ↦ elim (Bool-cases (is_silent uri)) [
          | inl silent ↦ rw silent refl
          | inr other ↦ rw other (silent_uris uris later)
        ]
      ]

  silent_given :
      (uris : Option (List TrunkUri))
      → has_valid_outbound_uris_or_throw p uris ≡ throws none
      → elim uris [ none ↦ false | some given ↦ any is_silent given ] ≡ true
  unfolding has_valid_outbound_uris_or_throw
  silent_given none h = cc
  silent_given (some uris) h = silent_uris uris h

  module _ (env : Environment) where
    silent_create :
        (r : Request) → valid_or_throw_create p env r ≡ throws none → has_silent_uri r ≡ true
    unfolding valid_or_throw_create has_valid_outbound_uris_or_throw
    silent_create (acl r) h = ground arith
    silent_create (credentials r) h = ground arith
    silent_create (agent r) h = ground arith
    silent_create (peer r) h = ground arith
    silent_create (domain r) h = ground arith
    silent_create (trunk r) h =
        let name = >>-checked (has_name r.name) _ h in
        let valid_name = >>-checked (is_valid_name p r.name) _ name in
        let inbound = >>-checked (has_inbound_uri r.inbound_uri) _ valid_name in
        silent_given r.uris (>>-checked (is_valid_inbound_uri p r.inbound_uri) _ inbound)
    silent_create (number r) h = ground arith

module _ {Db Req Data Row Dto : Type 0} (p : Packages) (env : Environment)
    (m : Manager Req Data Row Dto) (w : Writer Db Data Row) where
  -- A request to create is left without an answer only when it is a trunk with a URI whose weight is
  -- refused and whose priority would be accepted as a weight.
  pub create_unanswered :
      (r : Req) (db : Db)
      → (create p env m w r db).0 ≡ none
      → has_silent_uri p (m.request_of (m.decode_extended r)) ≡ true
  unfolding create
  create_unanswered r db h = silent_create p env (m.request_of (m.decode_extended r)) (ground arith)

  module _
      (update_keeps : (ref : Option String) (row : Data) (db db' : Db) (e : Failure)
        → w.update_row ref row db ≡ (failed e, db')
        → db' ≡ db) where
    kept_of_outcome :
        (o : Outcome Row × Db) (db : Db) (catch : Failure → Reply Dto)
        → ((e : Failure) (db' : Db) → o ≡ (failed e, db') → db' ≡ db)
        → is_answered (reply_with p env m w catch o) ≡ false
        → (reply_with p env m w catch o).1 ≡ db
    kept_of_outcome (done row, db') db catch keeps h = cc
    kept_of_outcome (failed e, db') db catch keeps h = keeps e db' refl

    kept_of_failure :
        (ref : Option String) (row : Data) (db : Db) (catch : Failure → Reply Dto)
        → is_answered (reply_with p env m w catch (w.update_row ref row db)) ≡ false
        → (reply_with p env m w catch (w.update_row ref row db)).1 ≡ db
    kept_of_failure ref row db catch h =
        kept_of_outcome (w.update_row ref row db) db catch
          (λ e db' failure. update_keeps ref row db db' e failure) h

    kept_when_refused :
        (r : Req) (a : Assertion) (db : Db)
        → has_uris (m.request_of r) ≡ false
        → is_answered (update_valid p env m w r a db) ≡ false
        → (update_valid p env m w r a db).1 ≡ db
    kept_when_refused r passes db no_uris h = ground (
      arith,
      kept_of_failure (ref_of (m.request_of r)) (m.map_to_prisma r) db
          (catch_update (ref_of (m.request_of r))),
    )
    kept_when_refused r (throws e) db no_uris h = refl

    -- If the database is as it was when an operation of its client fails, then an update that is not
    -- answered with a resource leaves the database as it was, unless it is that of a trunk with URIs.
    pub update_refused :
        (r : Req) (db : Db)
        → has_uris (m.request_of (m.decode_extended r)) ≡ false
        → is_answered (update p env m w r db) ≡ false
        → (update p env m w r db).1 ≡ db
    unfolding update
    update_refused r db no_uris h =
        kept_when_refused (m.decode_extended r)
          (valid_or_throw_update p env (m.request_of (m.decode_extended r))) db no_uris h

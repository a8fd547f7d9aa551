-- ===== src/Ctl/Validators/Agreement.antt =====
-- What the command line accepts and what the data service accepts: mods/ctl/src/validators.ts
-- and mods/pgdata/src/mappers.
use routr.Prelude.{String, Option, ◌≡◌, refl, ◌↔◌, some, ok, arith}
use routr.Validations.{Check, Packages}
use routr.Validations.Checks.{
  has_name, is_valid_name, has_username, is_valid_username, has_aor, is_valid_aor,
}
use routr.Validations.Rules.{is_valid_contact_address}
use routr.Validations.Assertions.{Assertion, passes, throws, ◌>>◌, or_throw}
use routr.PgData.Requests
use routr.PgData.Requests.{Request}
use routr.PgData.Managers.{Environment, valid_or_throw_create}
use routr.Ctl.Validators.{
  accepted, told, told_of, name_validator, username_validator, aor_validator,
  contact_addr_validator,
}

>>-passes : (a b : Assertion) → (a >> b) ≡ passes → (a ≡ passes) × (b ≡ passes)
>>-passes passes b h = (refl, h)
>>-passes (throws e) b h = cc

told-passes : (c : Check) → or_throw c ≡ passes → told c ≡ ok accepted
told-passes c h = ground arith

told_of-passes :
    (c d : Check) → or_throw c ≡ passes → or_throw d ≡ passes → told_of c d ≡ ok accepted
told_of-passes c d h k = ground arith

passes-told : (c : Check) → told c ≡ ok accepted → or_throw c ≡ passes
passes-told c h = ground arith

passes-told_of :
    (c d : Check) → told_of c d ≡ ok accepted → (or_throw c ≡ passes) × (or_throw d ≡ passes)
passes-told_of c d h = ground arith

module _ (p : Packages) (env : Environment) where
  abbrev typed_peer : (ref : Option String) (name username aor contact_addr : String) → Request
  typed_peer ref name username aor contact_addr = Requests.Request.peer (record {
    ref = ref;
    name = some name;
    username = some username;
    aor = some aor;
    contact_addr = some contact_addr;
  })

  abbrev pub IsTyped : (name username aor contact_addr : String) → Type 0
  IsTyped name username aor contact_addr =
      (name_validator p name ≡ ok accepted)
      × (username_validator username ≡ ok accepted)
      × (aor_validator aor ≡ ok accepted)
      × (contact_addr_validator p contact_addr ≡ ok accepted)

  IsTyped-of_create :
      (ref : Option String) (name username aor contact_addr : String)
      → valid_or_throw_create p env (typed_peer ref name username aor contact_addr) ≡ passes
      → IsTyped name username aor contact_addr
  unfolding valid_or_throw_create
  IsTyped-of_create ref name username aor contact_addr h =
      let (has, h1) = >>-passes (or_throw (has_name (some name))) _ h in
      let (valid_name, h2) = >>-passes (or_throw (is_valid_name p (some name))) _ h1 in
      let (user, h3) = >>-passes (or_throw (has_username (some username))) _ h2 in
      let (valid_user, h4) = >>-passes (or_throw (is_valid_username (some username))) _ h3 in
      let (given, h5) = >>-passes (or_throw (has_aor (some aor))) _ h4 in
      let (valid_aor, contact) = >>-passes (or_throw (is_valid_aor (some aor))) _ h5 in
      (
        told_of-passes (has_name (some name)) (is_valid_name p (some name)) has valid_name,
        told_of-passes (has_username (some username)) (is_valid_username (some username)) user
            valid_user,
        told_of-passes (has_aor (some aor)) (is_valid_aor (some aor)) given valid_aor,
        told-passes (is_valid_contact_address p (some contact_addr)) contact,
      )

  create_of_typed :
      (ref : Option String) (name username aor contact_addr : String)
      → IsTyped name username aor contact_addr
      → valid_or_throw_create p env (typed_peer ref name username aor contact_addr) ≡ passes
  unfolding valid_or_throw_create
  create_of_typed ref name username aor contact_addr typed =
      let (has, valid_name) =
        passes-told_of (has_name (some name)) (is_valid_name p (some name)) typed.0 in
      let (user, valid_user) =
        passes-told_of (has_username (some username)) (is_valid_username (some username)) typed.1 in
      let (given, valid_aor) =
        passes-told_of (has_aor (some aor)) (is_valid_aor (some aor)) typed.2 in
      let contact = passes-told (is_valid_contact_address p (some contact_addr)) typed.3 in
      rw (has, valid_name, user, valid_user, given, valid_aor, contact) refl

  -- A peer with a name, a user name, an address of record and a contact address passes the checks of
  -- create exactly when the validators of the command line accept these four. The maximum of
  -- contacts, which only the command line checks, is left aside.
  pub create-IsTyped_iff :
      (ref : Option String) (name username aor contact_addr : String)
      → (valid_or_throw_create p env (typed_peer ref name username aor contact_addr) ≡ passes)
        ↔ IsTyped name username aor contact_addr
  create-IsTyped_iff ref name username aor contact_addr = (
    IsTyped-of_create ref name username aor contact_addr,
    create_of_typed ref name username aor contact_addr,
  )

-- ===== src/Tests/Creating.antt =====
-- The commands that create resources, at a terminal whose answers are given in order.
use routr.Prelude.{
  String, ◌≡◌, refl, Bool, true, false, List, [], ◌∷◌, Option, none, some, error, Result, ok, err,
  arith, All, all, Bool-cases, Option-cases, inl, inr, ◌==◌, string_eq, includes, if◌then◌else◌,
  to_upper, parse_int,
}
use routr.Prelude.Exec.{Exec, pure}
use routr.Prelude.Maps.{lookup, insert}
use routr.Validations.{Packages}
use routr.Ctl.Validators.{Answer, accepted, message}
use routr.Ctl.Prompts.{Value, text, flag, undefined, Answers, Question, Terminal}
use routr.Ctl.Create.{with_privacy, with_max_contacts, country_name}
use routr.Ctl.Create.Loops.{uri_questions}
use routr.Ctl.Create.Chosen.{
  Validates, IsAccepted, IsAsked, last, another, with_privacy-private, ask_uris-IsTypedUri,
}
use routr.PgData.Mappers.{nothing, Agent, agent_to_prisma}

abbrev packages : Packages
packages = record {
  is_length = λ low high s. true;
  is_fqdn = λ s. s == "pstn.example";
  is_ip = λ s. false;
  is_ip_4 = λ s. false;
  is_ip_range_4 = λ s. false;
  is_port = λ s. s == "5060";
  is_int = λ s. s == "10";
  is_phone = λ number country mobile. true;
}

abbrev accepts : Result Answer → Bool
accepts (ok accepted) = true
accepts (ok (message _)) = false
accepts (err _) = false

abbrev fits : (String → Result Answer) → Option Value → Bool
fits validate (some (text s)) = accepts (validate s)
fits validate _ = false

abbrev is_answer : Answers → Question → Bool
is_answer answers q = elim q.validate [
  | none ↦ true
  | some validate ↦ fits validate (lookup q.name answers)
]

abbrev prompt : List Question → Exec (List Answers) Answers
prompt questions [] = (err (error "no more answers"), [])
prompt questions (answers ∷ later) =
    if all (is_answer answers) questions
    then (ok answers, later)
    else (err (error "refused"), later)

abbrev terminal : Terminal (List Answers)
terminal = record {
  prompt = prompt;
  choices_of = λ kind. pure [];
  domain_choices = pure [];
  get = λ kind ref. pure [];
  create = λ kind request. pure "trunk-1";
  update = λ kind request. pure "trunk-1";
  type_error_text = "TypeError";
}

accepts-eq : (r : Result Answer) → accepts r ≡ true → r ≡ ok accepted
accepts-eq (ok accepted) h = refl
accepts-eq (ok (message _)) h = cc
accepts-eq (err _) h = cc

fits-IsAccepted :
    (validate : String → Result Answer) (answer : Option Value)
    → fits validate answer ≡ true
    → IsAccepted validate answer
fits-IsAccepted validate (some (text s)) h = (s, refl, accepts-eq (validate s) h)
fits-IsAccepted validate _ h = cc

is_answer-Validates :
    (answers : Answers) (q : Question) → is_answer answers q ≡ true → Validates q answers
is_answer-Validates answers q h = elim (Option-cases q.validate) [
  | inl e ↦ rw e tt
  | inr (v, e) ↦ rw e (fits-IsAccepted v (lookup q.name answers) (rw e at h))
]

all-Validates :
    (answers : Answers) (questions : List Question)
    → all (is_answer answers) questions ≡ true
    → All (λ q. Validates q answers) questions
all-Validates answers [] h = tt
all-Validates answers (q ∷ questions) h =
    (is_answer-Validates answers q (ground arith), all-Validates answers questions (ground arith))

prompt-Validates :
    (questions : List Question) (answers : Answers) (s s' : List Answers)
    → prompt questions s ≡ (ok answers, s')
    → All (λ q. Validates q answers) questions
prompt-Validates questions answers [] s' h = cc
prompt-Validates questions answers (given ∷ later) s' h =
    elim (Bool-cases (all (is_answer given) questions)) [
      | inl e ↦
          let same : given ≡ answers = ground arith in
          all-Validates answers questions (rw same at e)
      | inr e ↦ absurd (ground arith)
    ]

prompt_uri-Validates :
    (answers : Answers) (s s' : List Answers)
    → prompt (uri_questions terminal packages) s ≡ (ok answers, s')
    → All (λ q. Validates q answers) (uri_questions terminal packages)
prompt_uri-Validates answers s s' h =
    prompt-Validates (uri_questions terminal packages) answers s s' h

-- Two URIs are asked for.
abbrev typed_uri : Bool → Answers
typed_uri more =
    ("host", text "pstn.example")
    ∷ ("port", text "5060")
    ∷ ("transport", text "UDP")
    ∷ ("user", text "trunk")
    ∷ ("priority", text "10")
    ∷ ("weight", text "10")
    ∷ ("addOutboundUri", flag more)
    ∷ []

abbrev two_uris : List Answers
two_uris = typed_uri true ∷ typed_uri false ∷ []

ask_uris-IsTypedUri_example : IsAsked packages terminal 2 two_uris
unfolding lookup includes parse_int
ask_uris-IsTypedUri_example =
    ask_uris-IsTypedUri packages terminal prompt_uri-Validates 2 two_uris
      (another (typed_uri true) refl refl (last (typed_uri false) refl refl))

-- Private is chosen.
abbrev answers : Answers
answers = ("name", text "John") ∷ ("privacy", text "ID") ∷ ("confirm", flag true) ∷ []

abbrev sent : Answers
sent = insert "privacy" undefined answers

abbrev john : Agent String
john = record {
  base = record {
    api_version = none;
    ref = none;
    name = some "John";
    created_at = none;
    updated_at = none;
    extended = none;
  };
  username = some "1001";
  privacy = none;
  enabled = some true;
  domain_ref = none;
  domain = none;
  max_contacts = none;
  expires = none;
  credentials_ref = none;
  credentials = none;
}

with_privacy-private_example :
    (lookup "privacy" (with_max_contacts sent) ≡ some undefined)
    × ((agent_to_prisma john).privacy ≡ some nothing)
unfolding with_privacy with_max_contacts to_upper
with_privacy-private_example = with_privacy-private answers sent john refl refl refl

country_name_test : country_name (some "SV") ≡ ok "El Salvador"
unfolding country_name
country_name_test = refl

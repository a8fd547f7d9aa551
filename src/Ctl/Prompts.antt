-- ===== src/Ctl/Prompts.antt =====
-- What the commands of mods/ctl/src/commands ask, and what they send. The package inquirer, the calls
-- of the remote API through the SDK, and the text of the engine's own errors are parameters; what is
-- printed and the messages of questions are left out.
use routr.Prelude.{
  ℤ, String, Bool, true, false, List, [], ◌∷◌, Option, none, some, Error, type_error, error, status,
  already_exists, Result, if◌then◌else◌,
}
use routr.Prelude.Exec.{Exec, pure, throw, attempt, ◌>>=◌}
use routr.Prelude.Maps.{Map}
use routr.Validations.Checks.{Header}
use routr.Ctl.Validators.{Answer}

-- A field of what is sent; `number` is none for NaN.
pub data Value : Type 0 where
  text : String → Value
  flag : Bool → Value
  number : Option ℤ → Value
  texts : List String → Value
  headers : List Header → Value
  undefined : Value

abbrev pub Answers : Type 0
Answers = Map Value

pub data QuestionType : Type 0 where
  input password list confirm autocomplete : QuestionType

-- { name, value }, where the value can be `undefined`.
abbrev pub Choice : Type 0
Choice = String × Option String

pub record Question : Type 0 where
  pub name : String
  pub question_type : QuestionType
  pub validate : Option (String → Result Answer)
  pub choices : List Choice
  pub default_value : Option Value
  -- false for a question that is passed over, given the answers so far
  pub applies : Answers → Bool

abbrev asked : Answers → Bool
asked answers = true

abbrev pub typed : String → (String → Result Answer) → Question
typed name validate = record {
  name = name;
  question_type = input;
  validate = some validate;
  choices = [];
  default_value = none;
  applies = asked;
}

abbrev pub chosen : String → List Choice → Question
chosen name choices = record {
  name = name;
  question_type = list;
  validate = none;
  choices = choices;
  default_value = none;
  applies = asked;
}

abbrev pub confirmed : String → Question
confirmed name = record {
  name = name;
  question_type = confirm;
  validate = none;
  choices = [];
  default_value = none;
  applies = asked;
}

abbrev pub defaulted : Option Value → Question → Question
defaulted value question = record question { default_value = value }

-- [{ name: "None", value: undefined }, ...choices]
abbrev pub or_nothing : List Choice → List Choice
or_nothing choices = ("None", none) ∷ choices

-- What is sent to create a resource: the answers, and what a loop of questions adds to them.
pub record CreateRequest : Type 0 where
  pub fields : Answers
  pub uris : Option (List Answers)
  pub egress_policies : Option (List Answers)

abbrev pub plain : Answers → CreateRequest
plain answers = record { fields = answers; uris = none; egress_policies = none }

pub data Kind : Type 0 where
  acls agents credentials domains numbers peers trunks : Kind

pub record Terminal (S : Type 0) : Type 0 where
  -- inquirer.prompt(questions)
  pub prompt : List Question → Exec S Answers
  -- the name and the reference of each item of the first page of 25
  pub choices_of : Kind → Exec S (List Choice)
  -- the URI and the reference of each domain of the first page of 25
  pub domain_choices : Exec S (List Choice)
  -- the fields of an existing resource
  pub get : Kind → String → Exec S Answers
  -- the reference of what was created
  pub create : Kind → CreateRequest → Exec S String
  -- the reference of what was updated
  pub update : Kind → CreateRequest → Exec S String
  pub type_error_text : String

pub data Outcome : Type 0 where
  aborted : Outcome
  created : String → Outcome
  updated : String → Outcome

abbrev pub text_of : Option Value → Option String
text_of (some (text s)) = some s
text_of _ = none

abbrev pub is_set : Option Value → Bool
is_set (some (flag b)) = b
is_set _ = false

module _ {S : Type 0} (t : Terminal S) where
  -- if (!answers.confirm) this.warn("Aborted") else create
  unfoldable pub submit : Kind → Bool → CreateRequest → Exec S Outcome
  submit kind is_confirmed request =
      if is_confirmed then (t.create kind request >>= λ ref. pure (created ref)) else pure aborted

  abbrev message_of : Error → String
  message_of type_error = t.type_error_text
  message_of (error message) = message
  message_of (status _ message) = message

  -- throw new CLIError(...)
  abbrev cli_error : String → Error → Error
  cli_error noun (status already_exists _) = error noun
  cli_error noun e = error (message_of e)

  unfoldable pub catching : {A : Type 0} → String → Exec S A → Exec S A
  catching already run = attempt run (λ e. throw (cli_error already e))

  -- The same for an update, and what it catches.
  unfoldable pub submit_update : Kind → Bool → CreateRequest → Exec S Outcome
  submit_update kind is_confirmed request =
      if is_confirmed then (t.update kind request >>= λ ref. pure (updated ref)) else pure aborted

  unfoldable pub failing : {A : Type 0} → Exec S A → Exec S A
  failing run = attempt run (λ e. throw (error (message_of e)))

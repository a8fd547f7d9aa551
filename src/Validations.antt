-- ===== src/Validations.antt =====
-- The checks on resources that the data services and the command line share, in
-- mods/common/src/connect: what a check answers, and the packages that the checks call.
pub mod Checks
pub mod Rules
pub mod Assertions
use routr.Prelude.{
  ℕ, ℤ, String, Bool, Option, none, some, Error, Result, ok, err, type_error, status,
  invalid_argument, ◌>>=◌,
}

-- What a check returns: `true` or `undefined`, or a `BadRequestError`.
pub data Verdict : Type 0 where
  valid : Verdict
  bad_request : String → Verdict

-- A check may throw too: reading a property of `undefined` does.
abbrev pub Check : Type 0
Check = Result Verdict

-- The packages validator and phone.
pub record Packages : Type 0 where
  pub is_length : (min max : ℕ) → String → Bool
  pub is_fqdn : String → Bool
  pub is_ip : String → Bool
  pub is_ip_4 : String → Bool
  pub is_ip_range_4 : String → Bool
  pub is_port : String → Bool
  pub is_int : String → Bool
  pub is_phone : (number country : Option String) → (validate_mobile_prefix : Bool) → Bool

-- The functions of validator throw a TypeError for what is no string.
abbrev pub on_string : (String → Bool) → Option String → Result Bool
on_string test none = err type_error
on_string test (some text) = ok (test text)

-- ===== src/Validations/Assertions.antt =====
-- mods/common/src/connect/assertions.ts: the checks that throw.
pub mod Uris
use routr.Prelude.{
  show_number, ℤ, String, Bool, true, false, List, [], ◌∷◌, Option, none, some, Error, Result, ok,
  err, status, invalid_argument, if◌then◌else◌,
}
use routr.Validations.{Verdict, valid, bad_request, Check, Packages}
use routr.Validations.Rules.{
  has_host, is_valid_host, is_valid_port, is_valid_priority, is_valid_weight,
}

-- What a call that may throw does. `throw undefined` throws no error.
pub data Assertion : Type 0 where
  passes : Assertion
  throws : Option Error → Assertion

infixl 5 ◌>>◌
abbrev pub ◌>>◌ : Assertion → Assertion → Assertion
passes >> next = next
throws e >> next = throws e

abbrev pub bad_request_error : String → Error
bad_request_error reason = status invalid_argument reason

abbrev pub or_throw : Check → Assertion
or_throw (ok valid) = passes
or_throw (ok (bad_request reason)) = throws (some (bad_request_error reason))
or_throw (err e) = throws (some e)

-- TrunkURI, and `uri.port + ""`, in which `undefined` is a text.
pub record TrunkUri : Type 0 where
  pub host : Option String
  pub port : Option ℤ
  pub priority : Option ℤ
  pub weight : Option ℤ

-- throw check(x), whatever `check` answers there.
abbrev pub thrown : Check → Assertion
thrown (ok valid) = throws none
thrown (ok (bad_request reason)) = throws (some (bad_request_error reason))
thrown (err e) = throws (some e)

abbrev pub if_bad : Check → Assertion → Assertion
if_bad (ok valid) failure = passes
if_bad (ok (bad_request reason)) failure = failure
if_bad (err e) failure = throws (some e)

module _ (p : Packages) where
  -- The last error is that of a check of the priority.
  abbrev pub is_valid_outbound_uri_or_throw : TrunkUri → Assertion
  is_valid_outbound_uri_or_throw uri = do
    if_bad (has_host uri.host) (thrown (has_host uri.host))
    if_bad (is_valid_host p uri.host) (thrown (is_valid_host p uri.host))
    if_bad (is_valid_port p (show_number uri.port))
        (thrown (is_valid_port p (show_number uri.port)))
    if_bad (is_valid_priority p (show_number uri.priority))
        (thrown (is_valid_priority p (show_number uri.priority)))
    if_bad (is_valid_weight p (show_number uri.weight))
        (thrown (is_valid_weight p (show_number uri.priority)))

  abbrev pub each_uri : List TrunkUri → Assertion
  each_uri [] = passes
  each_uri (uri ∷ uris) = is_valid_outbound_uri_or_throw uri >> each_uri uris

  unfoldable pub has_valid_outbound_uris_or_throw : Option (List TrunkUri) → Assertion
  has_valid_outbound_uris_or_throw none = passes
  has_valid_outbound_uris_or_throw (some uris) = each_uri uris

-- ===== src/Prelude/Text.antt =====
-- The string functions of JavaScript that the program calls. Case mapping is that of ASCII: header
-- names, transports and schemes are ASCII; other characters are left as they are.
use Prim.Native.Nat.{ℕ, ◌+◌, ◌-◌, ◌<◌, ◌≤◌}
use Prim.Native.Char.{Char, char, code, IsScalar}
use Prim.Native.String
use Prim.Native.String.{String}
use mathlib.Core.Path.{◌≡◌, refl, ap}
use mathlib.Core.Logic.{dite, ◌≢◌, inl, inr}
use mathlib.Core.Bool.{Bool, true, false, ◌||◌}
use mathlib.Core.Option.{Option, none, some}
use mathlib.Core.List.{List, [], ◌∷◌}
use native.Mathlib.Omega.{arith}
use native.Mathlib.Decide.{dec_lt}
use text.Mathlib.Text.{starts_with}
use routr.Prelude.Tests.{Bool-cases, if◌then◌else◌, ◌==◌, nat_eq, string_eq}
use routr.Prelude.Lists.{head?}

pub ascii : (n : ℕ) → n < 55296 → IsScalar n
ascii n h = ground arith

lower_char : Char → Char
unfolding dec_lt
lower_char (char n p) =
    dite (dec_lt n 91)
      (λ h. dite (dec_lt 64 n) (λ _. char (n + 32) (ascii (n + 32) (omega arith))) (λ _. char n p))
      (λ _. char n p)

upper_char : Char → Char
unfolding dec_lt
upper_char (char n p) =
    dite (dec_lt n 123)
      (λ h. dite (dec_lt 96 n) (λ _. char (n - 32) (ascii (n - 32) (omega arith))) (λ _. char n p))
      (λ _. char n p)

unfoldable pub to_lower : String → String
unfolding lower_char
to_lower String.[] = String.[]
to_lower (String.◌∷◌ c s) = String.◌∷◌ (lower_char c) (to_lower s)

unfoldable pub to_upper : String → String
unfolding upper_char
to_upper String.[] = String.[]
to_upper (String.◌∷◌ c s) = String.◌∷◌ (upper_char c) (to_upper s)

to_lower_test : to_lower "X-Edgeport-Ref é" ≡ "x-edgeport-ref é"
unfolding to_lower
to_lower_test = refl

to_upper_test : to_upper "udp" ≡ "UDP"
unfolding to_upper
to_upper_test = refl

abbrev prepend : Char → List String → List String
prepend c [] = []
prepend c (w ∷ ws) = String.◌∷◌ c w ∷ ws

-- s.split(sep), for a separator of one character.
unfoldable pub split : ℕ → String → List String
split sep String.[] = "" ∷ []
split sep (String.◌∷◌ c s) = if code c == sep then "" ∷ split sep s else prepend c (split sep s)

prepend-head :
    (c : Char) (ws : List String) (x : String)
    → head? ws ≡ some x
    → head? (prepend c ws) ≡ some (String.◌∷◌ c x)
prepend-head c [] x h = cc
prepend-head c (w ∷ ws) x h = ground arith

-- There is a first part.
pub split-head : (sep : ℕ) (s : String) → (x : String) × (head? (split sep s) ≡ some x)
unfolding split
split-head sep String.[] = ("", refl)
split-head sep (String.◌∷◌ c s) =
    let (x, h) = split-head sep s in
    elim (Bool-cases (code c == sep)) [
      | inl here ↦ ("", rw here refl)
      | inr later ↦ (String.◌∷◌ c x, rw later (prepend-head c (split sep s) x h))
    ]

split_test : split b'/' "10.0.0.0/8" ≡ "10.0.0.0" ∷ "8" ∷ []
unfolding split
split_test = refl

-- s.includes(t)
unfoldable pub includes : String → String → Bool
includes String.[] t = t == ""
includes (String.◌∷◌ c s) t = starts_with (String.◌∷◌ c s) t || includes s t

includes_test : includes "df7jal23ls0d.invalid" ".invalid" ≡ true
unfolding includes
includes_test = refl

-- s.replace("+", ""): the first occurrence only.
unfoldable pub drop_plus : String → String
drop_plus String.[] = String.[]
drop_plus (String.◌∷◌ c s) = if code c == b'+' then s else String.◌∷◌ c (drop_plus s)

-- A template literal, as the list of its parts.
abbrev pub template : List String → String
template [] = ""
template (s ∷ ss) = String.◌++◌ s (template ss)

-- What a template writes for a value that may be `undefined`.
abbrev pub shown : Option String → String
shown none = "undefined"
shown (some s) = s

-- A string that is used as a condition: `undefined` and "" are false.
abbrev pub truthy : Option String → Bool
truthy none = false
truthy (some s) = if s == "" then false else true

-- x || y, on strings.
abbrev pub or_else : Option String → String → String
or_else none d = d
or_else (some s) d = if s == "" then d else s

-- A case map leaves no character of the other case.
lower_char_bounds : (c : Char) (n : ℕ) → 65 ≤ n → n ≤ 90 → code (lower_char c) ≢ n
unfolding lower_char
lower_char_bounds (char m p) n lower upper = ground arith

abbrev first_code : String → ℕ
first_code String.[] = 0
first_code (String.◌∷◌ c s) = code c

-- A text in lower case does not start with an upper-case letter.
pub to_lower-ne :
    (u : Char) → 65 ≤ code u → code u ≤ 90 → (s t : String) → to_lower s ≢ String.◌∷◌ u t
unfolding to_lower
to_lower-ne u lower upper String.[] t e = cc
to_lower-ne u lower upper (String.◌∷◌ c s) t e =
    lower_char_bounds c (code u) lower upper (ap first_code e)

pub to_lower-ne_X : (s t : String) → to_lower s ≢ String.◌∷◌ (char 88 tt) t
to_lower-ne_X s t = to_lower-ne (char 88 tt) (omega arith) (omega arith) s t

pub to_lower-ne_I : (s t : String) → to_lower s ≢ String.◌∷◌ (char 73 tt) t
to_lower-ne_I s t = to_lower-ne (char 73 tt) (omega arith) (omega arith) s t

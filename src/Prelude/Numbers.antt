-- ===== src/Prelude/Numbers.antt =====
-- Numbers in texts, as JavaScript writes and reads them.
use Prim.Native.Nat.{ℕ, zero, suc, ◌+◌, ◌-◌, ◌*◌, ◌/◌, ◌%◌}
use Prim.Native.Char.{code}
use Prim.Native.String
use Prim.Native.String.{String}
use mathlib.Core.Path.{◌≡◌, refl}
use mathlib.Core.Bool.{Bool, true, false, ◌&&◌, ◌||◌}
use mathlib.Core.Option.{Option, none, some}
use routr.Prelude.Int.{ℤ, pos, negsuc}
use routr.Prelude.Lists.{get_or}
use routr.Prelude.Tests.{if◌then◌else◌, ◌==◌, nat_eq, string_eq, leb}

abbrev digit : ℕ → String
digit n =
    if n == 0
    then "0"
    else if n == 1
    then "1"
    else if n == 2
    then "2"
    else if n == 3
    then "3"
    else if n == 4
    then "4"
    else if n == 5
    then "5"
    else if n == 6
    then "6"
    else if n == 7
    then "7"
    else if n == 8
    then "8"
    else "9"

abbrev show_digits : ℕ → ℕ → String → String
show_digits zero n after = after
show_digits (suc more) n after =
    let shown = String.◌++◌ (digit (n % 10)) after in
    let rest = show_digits more (n / 10) shown in if n / 10 == 0 then shown else rest

-- From 10 ^ 21 on, numbers are written with an exponent; there are none here.
unfoldable pub show_ℕ : ℕ → String
show_ℕ n = show_digits 21 n ""

-- What a template writes for a number that may be `undefined`.
unfoldable pub show_number : Option ℤ → String
unfolding show_ℕ
show_number none = "undefined"
show_number (some (pos n)) = show_ℕ n
show_number (some (negsuc n)) = String.◌++◌ "-" (show_ℕ (suc n))

abbrev within : ℕ → ℕ → ℕ → Bool
within low high n = leb low n && leb n high

-- The value of a digit of the base, if it is one.
abbrev digit_value : ℕ → ℕ → Option ℕ
digit_value base c =
    if within b'0' b'9' c
    then some (c - b'0')
    else if base == 16 && within b'a' b'f' c
    then some (c - b'a' + 10)
    else if base == 16 && within b'A' b'F' c
    then some (c - b'A' + 10)
    else none

-- Digits up to the first character that is none.
abbrev read_digits : ℕ → String → Option ℕ → Option ℕ
read_digits base String.[] read = read
read_digits base (String.◌∷◌ c s) read = elim (digit_value base (code c)) [
  | none ↦ read
  | some d ↦ read_digits base s (some (get_or read 0 * base + d))
]

abbrev read_hex : String → Option ℕ
read_hex String.[] = some 0
read_hex (String.◌∷◌ c s) =
    if code c == b'x' || code c == b'X'
    then read_digits 16 s none
    else read_digits 10 (String.◌∷◌ c s) (some 0)

abbrev read_natural : String → Option ℕ
read_natural String.[] = none
read_natural (String.◌∷◌ c s) =
    if code c == b'0' then read_hex s else read_digits 10 (String.◌∷◌ c s) none

abbrev signed : Bool → Option ℕ → Option ℤ
signed minus none = none
signed true (some zero) = some (pos zero)
signed true (some (suc n)) = some (negsuc n)
signed false (some n) = some (pos n)

abbrev read_signed : String → Option ℤ
read_signed String.[] = none
read_signed (String.◌∷◌ c s) =
    if code c == b'-'
    then signed true (read_natural s)
    else if code c == b'+'
    then signed false (read_natural s)
    else signed false (read_natural (String.◌∷◌ c s))

-- The white space of ECMAScript, with the ends of lines.
abbrev pub is_space : ℕ → Bool
is_space n =
    leb 9 n && leb n 13
    || n == 32
    || n == 160
    || n == 5760
    || leb 8192 n && leb n 8202
    || n == 8232
    || n == 8233
    || n == 8239
    || n == 8287
    || n == 12288
    || n == 65279

abbrev pub trim_start : String → String
trim_start String.[] = ""
trim_start (String.◌∷◌ c s) = if is_space (code c) then trim_start s else String.◌∷◌ c s

-- parseInt(s), with none for NaN, in exact numbers.
unfoldable pub parse_int : String → Option ℤ
parse_int s = read_signed (trim_start s)

parse_int_test : parse_int " -12px" ≡ some (negsuc 11)
unfolding parse_int
parse_int_test = refl

show_number_test : show_number (some (pos 5060)) ≡ "5060"
unfolding show_number
show_number_test = refl

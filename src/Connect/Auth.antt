-- ===== src/Connect/Auth.antt =====
-- mods/common/src/auth.ts: the digest that an endpoint proves its secret with.
use routr.Prelude.{
  ℕ, zero, suc, ◌/◌, ◌%◌, String, List, [], ◌∷◌, ◌++◌, Option, ◌==◌, string_eq, get_elem?, get_or,
  template, shown, ◌≡◌, refl, if◌then◌else◌,
}
use routr.Sip.{Method, method_value, Authorization}
use routr.Connect.Types.{Packages}

abbrev hex_digits : List String
hex_digits =
    "0" ∷ "1" ∷ "2" ∷ "3" ∷ "4" ∷ "5" ∷ "6" ∷ "7" ∷ "8" ∷ "9" ∷ "a" ∷ "b" ∷ "c" ∷ "d" ∷ "e" ∷ "f"
    ∷ []

-- The last `k` hexadecimal digits of a number.
hex : ℕ → ℕ → List String
hex zero n = []
hex (suc k) n = hex k (n / 16) ++ get_or (get_elem? hex_digits (n % 16)) "" ∷ []

-- (dec + Math.pow(16, 8)).toString(16).slice(-8)
unfoldable pub dec_to_hex : ℕ → String
unfolding hex
dec_to_hex dec = template (hex 8 dec)

dec_to_hex_test : dec_to_hex 26 ≡ "0000001a"
unfolding dec_to_hex
dec_to_hex_test = refl

-- `credentials?.username` and `credentials?.password` may be `undefined`, and are written so.
pub record Secret : Type 0 where
  pub username : Option String
  pub secret : Option String

unfoldable pub calculate_auth_response : Packages → Authorization → Method → Secret → String
unfolding dec_to_hex
calculate_auth_response p res method credentials =
    let ha1 = p.md5hex (
      template
        (shown credentials.username ∷ ":" ∷ res.realm ∷ ":" ∷ shown credentials.secret ∷ [])) in
    let ha2 = p.md5hex (template (method_value method ∷ ":" ∷ res.uri ∷ [])) in
    if res.qop == "auth"
    then p.md5hex (
        template (
          ha1
          ∷ ":"
          ∷ res.nonce
          ∷ ":"
          ∷ dec_to_hex res.nonce_count
          ∷ ":"
          ∷ res.c_nonce
          ∷ ":"
          ∷ res.qop
          ∷ ":"
          ∷ ha2
          ∷ []))
    else p.md5hex (template (ha1 ∷ ":" ∷ res.nonce ∷ ":" ∷ ha2 ∷ []))

-- ===== src/SimpleAuth.antt =====
-- mods/simpleauth/src/service.ts: a middleware that lets the listed users pass.
pub mod Sound
use routr.Prelude.{
  String, Bool, false, not, List, Option, none, some, Result, ok, ◌==◌, string_eq, option_eq, any,
  find, ◌>>=◌, if◌then◌else◌,
}
use routr.Sip.{MessageRequest, Authorization, method_value}
use routr.Connect.Types.{Packages}
use routr.Connect.Auth.{Secret, calculate_auth_response}
use routr.Connect.Access.{host_asked}
use routr.Connect.Responses.{Sent, forwarded, replied, unauthorized_response}

pub record User : Type 0 where
  pub username : String
  pub secret : String

pub record Config : Type 0 where
  pub users : List User
  pub allowlist : List String
  pub methods : List String

-- getCredentials of mods/common/src/auth.ts
unfoldable pub get_credentials : String → List User → Option User
get_credentials username users = find (λ user. user.username == username) users

-- calculateAuthResponse, which is `null` for no credentials.
unfoldable pub user_response :
    Packages → MessageRequest → Authorization → Option User → Option String
unfolding calculate_auth_response
user_response p req auth none = none
user_response p req auth (some user) = some (
    calculate_auth_response p auth req.method
      (record { username = some user.username; secret = some user.secret }))

abbrev pub is_protected : Config → MessageRequest → Bool
is_protected config req = any (λ m. m == method_value req.method) config.methods

-- `allowlist.includes(user)`; the list holds no `undefined`.
abbrev pub is_allowlisted : Config → Option String → Bool
is_allowlisted config none = false
is_allowlisted config (some user) = any (λ u. u == user) config.allowlist

abbrev pub refuse : Packages → MessageRequest → Result Sent
refuse p req = do host ← host_asked req; ok (replied (unauthorized_response p.nonce host))

abbrev pub authenticate : Packages → Config → MessageRequest → Authorization → Result Sent
authenticate p config req auth =
    if user_response p req auth (get_credentials auth.username config.users) == some auth.response
    then ok (forwarded req)
    else refuse p req

unfoldable pub simple_auth : Packages → Config → MessageRequest → Result Sent
unfolding get_credentials user_response
simple_auth p config req =
    if not (is_protected config req)
    then ok (forwarded req)
    else if is_allowlisted config req.message.from.address.uri.user
    then ok (forwarded req)
    else elim req.message.authorization [
      | none ↦ refuse p req
      | some auth ↦ authenticate p config req auth
    ]

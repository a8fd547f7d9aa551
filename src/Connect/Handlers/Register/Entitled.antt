-- ===== src/Connect/Handlers/Register/Entitled.antt =====
-- Who is told that a registration was accepted.
use routr.Prelude.{
  String, ◌≡◌, ◌≢◌, refl, Bool, true, false, Option, some, Result, ok, err, arith, any, defined,
  Option-cases, Bool-cases, inl, inr, eq_iff,
}
use routr.Prelude.Exec.{Exec, recover, continue, pure}
use routr.Sip.{MessageRequest, Authorization, same_method}
use routr.Sip
use routr.Sip.Connect.{Credentials, RoutableResourceUnion}
use routr.Connect.Types.{ApiClient, LocationClient, VerifyResponse}
use routr.Connect.Auth.{calculate_auth_response}
use routr.Connect.Access.{answers, credentials_of, host_asked, secret_of}
use routr.Connect.Responses.{Sent, forwarded, replied, forbidden_response}
use routr.Connect.Utils.{find_resource, has_x_connect_object_header}
use routr.Connect.Handlers.{Settings}
use routr.Connect.Handlers.Register.{
  handle_register, register_with_credentials, register_with_token, unauthorized,
}

abbrev accepts_type : Sip.ResponseType → Bool
accepts_type Sip.ResponseType.ok = true
accepts_type _ = false

-- Whether what is sent is a response of the type OK.
abbrev pub accepts : Result Sent → Bool
accepts (ok (replied reply)) = accepts_type reply.response_type
accepts (ok (forwarded _)) = false
accepts (err _) = false

module _ {S : Type 0} (e : Settings) (api : ApiClient) (location : LocationClient S)
    (req : MessageRequest) where
  -- The request has the digest of the resource that its From URI names, or no credentials and a
  -- token that was verified and allows REGISTER.
  pub data IsEntitled : Type 0 where
    by_credentials :
        (auth : Authorization) (found : RoutableResourceUnion) (c : Option Credentials)
        → req.message.authorization ≡ some auth
        → find_resource api req.message.from.address.uri.host req.message.from.address.uri.user
          ≡ some found
        → credentials_of (some found) ≡ ok c
        → calculate_auth_response e.packages auth req.method (secret_of c) ≡ auth.response
        → IsEntitled
    by_token :
        (verify : String → Result VerifyResponse) (token : String) (payload : VerifyResponse)
        → e.packages.verify ≡ some verify
        → has_x_connect_object_header req ≡ some token
        → verify token ≡ ok payload
        → any (λ m. same_method m Sip.Method.register) payload.allowed_methods ≡ true
        → IsEntitled

  accepts-continue :
      {A : Type 0} (r : Result A) (f : A → Exec S Sent) (s : S)
      → accepts (continue r f s).0 ≡ true
      → (a : A) × (r ≡ ok a) × (accepts (f a s).0 ≡ true)
  accepts-continue (ok a) f s h = (a, refl, h)
  accepts-continue (err reason) f s h = cc

  unauthorized_refuses : (s : S) → accepts (unauthorized e api location req s).0 ≢ true
  unauthorized_refuses s h = let (host, _, h') = accepts-continue (host_asked req) _ s h in cc

  credentials_entitled :
      (auth : Authorization) (s : S)
      → req.message.authorization ≡ some auth
      → accepts (register_with_credentials e api location req auth s).0 ≡ true
      → IsEntitled
  unfolding register_with_credentials
  credentials_entitled auth s carried h =
      let from_uri = req.message.from.address.uri in
      elim (Option-cases (find_resource api from_uri.host from_uri.user)) [
        | inl nobody ↦ absurd (ground arith)
        | inr (found, named) ↦
            let (c, known, h') =
              accepts-continue (credentials_of (some found)) _ s (rw (named, accepts) at h) in
            elim (Bool-cases (answers e.packages req auth c)) [
              | inl same ↦ by_credentials auth found c carried named known (
                  ground (
                    arith,
                    eq_iff (calculate_auth_response e.packages auth req.method (secret_of c))
                        auth.response,
                  ))
              | inr other ↦ absurd (unauthorized_refuses s (rw other at h'))
            ]
      ]

  accepts-recover :
      (r : Result Sent) (s : S)
      → accepts (recover (λ _. pure (replied forbidden_response)) r s).0 ≡ true
      → accepts r ≡ true
  accepts-recover (ok sent) s h = h
  accepts-recover (err reason) s h = cc

  token_entitled :
      (token : String) (s : S)
      → has_x_connect_object_header req ≡ some token
      → accepts (register_with_token e api location req token s).0 ≡ true
      → IsEntitled
  unfolding register_with_token
  token_entitled token s carried h =
      let (verify, configured, h1) = accepts-continue (defined e.packages.verify) _ s h in
      let (payload, verified, h2) = accepts-continue (verify token) _ s h1 in
      elim (Bool-cases (any (λ m. same_method m Sip.Method.register) payload.allowed_methods)) [
        | inl allowed ↦ by_token verify token payload (ground arith) carried verified allowed
        | inr other ↦ absurd (ground arith)
      ]

  -- A REGISTER that is answered with OK carries the digest that the credentials of the resource that
  -- its From URI names give, of whatever kind the resource is, and with no user name and secret if it
  -- has no credentials, as a number has none; or it has no credentials and a token that the verifier
  -- took and that allows REGISTER; whatever the location service does.
  pub handle_register-IsEntitled :
      (s : S) → accepts (handle_register e api location req s).0 ≡ true → IsEntitled
  unfolding handle_register
  handle_register-IsEntitled s h = elim (Option-cases req.message.authorization) [
    | inr (auth, carried) ↦ credentials_entitled auth s carried (ground arith)
    | inl bare ↦ elim (Option-cases (has_x_connect_object_header req)) [
      | inr (token, carried) ↦ token_entitled token s carried (
          accepts-recover (register_with_token e api location req token s).0
            (register_with_token e api location req token s).1 (ground arith))
      | inl none_given ↦ absurd (unauthorized_refuses s (ground arith))
    ]
  ]

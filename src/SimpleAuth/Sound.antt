-- ===== src/SimpleAuth/Sound.antt =====
-- Who passes.
use routr.Prelude.{
  ◌≡◌, ◌≢◌, ◌↔◌, refl, eq_refl, true, false, Option, none, some, ok, arith, Bool-cases,
  Option-cases, inl, inr, >>=-eq-ok, eq_iff, option_eq, string_eq, ◌==◌,
}
use routr.Sip.{MessageRequest, Authorization}
use routr.Connect.Types.{Packages}
use routr.Connect.Auth.{calculate_auth_response}
use routr.Connect.Access.{host_asked}
use routr.Connect.Responses.{forwarded}
use routr.SimpleAuth.{
  User, Config, get_credentials, user_response, is_protected, is_allowlisted, refuse, authenticate,
  simple_auth,
}

module _ (p : Packages) (config : Config) (req : MessageRequest) where
  pub data MayPass : Type 0 where
    open_method : is_protected config req ≡ false → MayPass
    on_allowlist : is_allowlisted config req.message.from.address.uri.user ≡ true → MayPass
    proven :
        (auth : Authorization) (user : User)
        → req.message.authorization ≡ some auth
        → get_credentials auth.username config.users ≡ some user
        → user_response p req auth (some user) ≡ some auth.response
        → MayPass

  refuse-ne : refuse p req ≢ ok (forwarded req)
  refuse-ne h = let (host, _, h') = >>=-eq-ok (host_asked req) _ h in cc

  right_response :
      (auth : Authorization) (user : Option User)
      → (user_response p req auth user == some auth.response) ≡ true
      → (u : User) × (user ≡ some u) × (user_response p req auth (some u) ≡ some auth.response)
  unfolding user_response
  right_response auth none h = cc
  right_response auth (some user) h = (
    user,
    refl,
    ground (
      arith,
      eq_iff
          (calculate_auth_response p auth req.method
            (record { username = some user.username; secret = some user.secret }))
          auth.response,
    ),
  )

  authenticate_sound :
      (auth : Authorization)
      → req.message.authorization ≡ some auth
      → authenticate p config req auth ≡ ok (forwarded req)
      → MayPass
  authenticate_sound auth carried h =
      elim (Bool-cases (
        user_response p req auth (get_credentials auth.username config.users)
        == some auth.response)) [
          | inl same ↦
              let (user, named, right) =
                right_response auth (get_credentials auth.username config.users) same in
              proven auth user carried named right
          | inr other ↦ absurd (refuse-ne (ground arith))
        ]

  may_of_passes : simple_auth p config req ≡ ok (forwarded req) → MayPass
  unfolding simple_auth
  may_of_passes h = elim (Bool-cases (is_protected config req)) [
    | inr unprotected ↦ open_method unprotected
    | inl protected ↦ elim (Bool-cases (is_allowlisted config req.message.from.address.uri.user)) [
      | inl listed ↦ on_allowlist listed
      | inr other ↦ elim (Option-cases req.message.authorization) [
        | inl bare ↦ absurd (refuse-ne (ground arith))
        | inr (auth, carried) ↦ authenticate_sound auth carried (ground arith)
      ]
    ]
  ]

  passes_of_may : MayPass → simple_auth p config req ≡ ok (forwarded req)
  unfolding simple_auth
  passes_of_may (open_method h) = ground arith
  passes_of_may (on_allowlist h) = ground arith
  passes_of_may (proven auth user carried named right) = ground (arith, eq_refl auth.response)

  -- A request passes unchanged exactly when its method is not protected, or its caller is on the
  -- allow list, or it carries the digest that the secret of the listed user whom it names gives.
  pub simple_auth_iff : (simple_auth p config req ≡ ok (forwarded req)) ↔ MayPass
  simple_auth_iff = (may_of_passes, passes_of_may)

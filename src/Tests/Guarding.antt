-- ===== src/Tests/Guarding.antt =====
-- The middlewares: simple authentication and the relay of media.
use routr.Prelude.{◌≡◌, ◌↔◌, [], ◌∷◌, some, ok}
use routr.SimpleAuth.{Config, simple_auth}
use routr.SimpleAuth.Sound.{MayPass, simple_auth_iff}
use routr.Connect.Responses.{forwarded}
use routr.RtpRelay.{rtp_relay}
use routr.RtpRelay.Client.{Engine, answered, failed}
use routr.RtpRelay.Outcome.{IsRelayed, rtp_relay-IsRelayed}
use routr.Tests.Data.{invite, packages}

abbrev guarded : Config
guarded = record {
  users = record { username = "1001"; secret = "1234" } ∷ [];
  allowlist = "1002" ∷ [];
  methods = "INVITE" ∷ [];
}

simple_auth_iff_example :
    (simple_auth packages guarded invite ≡ ok (forwarded invite)) ↔ MayPass packages guarded invite
simple_auth_iff_example = simple_auth_iff packages guarded invite

-- An engine that knows no call.
abbrev engine : Engine
engine = record {
  query = λ r. ok (failed "unknown call");
  offer = λ r. ok (answered (some "v=1"));
  answer = λ r. ok (answered (some "v=2"));
  delete = λ r. ok (failed "unknown call");
}

rtp_relay-IsRelayed_example : IsRelayed engine invite (rtp_relay engine invite)
rtp_relay-IsRelayed_example = rtp_relay-IsRelayed engine invite

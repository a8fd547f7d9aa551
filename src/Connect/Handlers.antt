-- ===== src/Connect/Handlers.antt =====
-- mods/connect/src/handlers and mods/connect/src/service.ts: what each request is answered with.
-- An exception that no handler catches is an error of `Exec`, and then nothing is sent.
pub mod Register
pub mod Forward
pub mod Request
pub mod Service
use routr.Prelude.{String, Bool, Option}
use routr.Common.IpUtils.{IpLib}
use routr.Connect.Types.{Packages}

-- What the handlers read of the environment, and the packages that only they use.
pub record Settings : Type 0 where
  pub packages : Packages
  pub ip : IpLib
  pub phone : String → Bool → Option String
  pub enforces_e164 : Bool
  pub enforces_mobile_prefix : Bool

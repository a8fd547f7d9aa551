-- ===== src/Tests/Loading.antt =====
-- The configuration files.
use routr.Prelude.{pos, String, ◌≢◌, refl, Bool, true, List, [], ◌∷◌, none, some, arith}
use routr.SimpleData.Configs
use routr.SimpleData.Configs.{ConfigBase, UserConfig}
use routr.SimpleData.Resources
use routr.SimpleData.Resources.{Resource, Link, null, to}
use routr.SimpleData.Mappers.{out_of_fuel, map_base, map_to_credentials, map_to_peer}
use routr.SimpleData.Loaders.{load, load_resources, or_no_limit}
use routr.SimpleData.Loaders.Depth.{load_resources_ends}
use routr.SimpleData.Loaders.Typed.{IsMadeOf, load-IsMadeOf}
use routr.SimpleData.Loaders.Links.{IsOf, load-IsOf}

abbrev base : String → ConfigBase
base ref = record { api_version = "v2"; ref = ref; name = "Test" }

abbrev secret : Configs.CredentialsConfig
secret = record { base = base "credentials-1"; username = "asterisk"; password = "1234" }

abbrev asterisk : Configs.PeerConfig
asterisk = record {
  base = base "peer-1";
  aor = "sip:voice@sip.local";
  username = "asterisk";
  credentials_ref = some "credentials-1";
  contact_addr = none;
  enabled = some true;
  max_contacts = none;
  expires = none;
  load_balancing = none;
}

abbrev entries : List UserConfig
entries = UserConfig.peer asterisk ∷ UserConfig.credentials secret ∷ []

abbrev any_fits : UserConfig → Bool
any_fits c = true

load_resources_ends_example :
    load_resources any_fits (pos 7) 5 (λ c. true) (entries ∷ []) ≢ out_of_fuel
load_resources_ends_example =
    load_resources_ends any_fits (pos 7) 5 (λ c. true) (entries ∷ []) refl (omega arith)

abbrev mapped : Resources.Peer
mapped = record (map_to_peer asterisk) { max_contacts = or_no_limit none }

abbrev voice : Resource
voice = Resource.peer (map_base (pos 7) (base "peer-1")) mapped (
    to (Resource.credentials (map_base (pos 7) (base "credentials-1")) (map_to_credentials secret)))

load-IsOf_example : IsOf (UserConfig.peer asterisk) voice
unfolding load
load-IsOf_example = load-IsOf any_fits (pos 7) entries 5 (UserConfig.peer asterisk) voice refl

load-IsMadeOf_example : IsMadeOf (UserConfig.peer asterisk) voice
unfolding load
load-IsMadeOf_example =
    load-IsMadeOf any_fits (pos 7) entries (refl, (tt, tt)) 5 (UserConfig.peer asterisk) voice refl
      refl

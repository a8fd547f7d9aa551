-- ===== src/Tests/Mapping.antt =====
-- The managers' mappings, on a trunk.
use routr.Prelude.{pos, String, ◌≡◌, refl, true, [], ◌∷◌, none, some, to_upper}
use routr.PgData.Api.{Manager}
use routr.PgData.Mappers.{v2, Base, AccessControlList, TrunkUri}
use routr.PgData.Mappers.Kinds.{Resource}
use routr.PgData.Mappers.Service.{manager}
use routr.PgData.Mappers.Again.{columns, IsRow, manager-read_again}

abbrev base : String → Base String
base ref = record {
  api_version = some v2;
  ref = some ref;
  name = some "Provider";
  created_at = some (pos 1000);
  updated_at = some (pos 2000);
  extended = some "{}";
}

abbrev rules : AccessControlList String
rules = record { base = base "acl-1"; allow = some ("10.0.0.0/24" ∷ []); deny = some [] }

abbrev uri : TrunkUri
uri = record {
  ref = some "uri-1";
  trunk_ref = some "trunk-1";
  host = "pstn.example";
  port = pos 5060;
  transport = "UDP";
  user = none;
  weight = pos 1;
  priority = pos 1;
  enabled = true;
}

abbrev trunk : Resource String
trunk = Resource.trunk (record {
  base = base "trunk-1";
  send_register = some true;
  inbound_uri = some "sip.local";
  access_control_list_ref = some "acl-1";
  access_control_list = some rules;
  inbound_credentials_ref = none;
  inbound_credentials = none;
  outbound_credentials_ref = none;
  outbound_credentials = none;
  uris = some (uri ∷ []);
})

trunk-IsRow : IsRow trunk
unfolding IsRow to_upper
trunk-IsRow = (refl, λ e. absurd cc, λ e. absurd cc, λ e. absurd cc, refl, refl, refl, (refl, tt))

abbrev service : Manager (Resource String) (Resource String) (Resource String) (Resource String)
service = manager (λ s. s) (λ s. s)

manager-read_again_example :
    columns (
      service.map_to_prisma
        (service.decode_extended (service.map_to_dto (service.encode_extended trunk))))
    ≡ columns trunk
manager-read_again_example = manager-read_again (λ s. s) (λ s. s) (λ s. refl) trunk trunk-IsRow

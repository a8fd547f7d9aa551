-- ===== src/SimpleData/Mappers.antt =====
-- mods/common/src/connect/mappers. Validating against the schemas is a parameter; an entry that does
-- not fit its schema ends the process.
use Prim.Native.Char.{char, code}
use routr.Prelude.{
  ℤ, String, Bool, [], map, Option, none, some, Error, ◌==◌, nat_eq, get_or, to_upper,
  if◌then◌else◌,
}
use routr.SimpleData.Configs
use routr.SimpleData.Configs.{
  ConfigBase, UserConfig, AccessRules, InboundConfig, OutboundConfig, UriConfig, LoadBalancing,
}
use routr.SimpleData.Resources
use routr.SimpleData.Resources.{Base}

-- What loading gives: a value, the end of the process, an exception, or no end within the fuel.
pub data Loaded (A : Type 0) : Type 0 where
  loaded : A → Loaded A
  exits : Loaded A
  throws : Error → Loaded A
  out_of_fuel : Loaded A

infixl 5 ◌>>=◌
abbrev pub ◌>>=◌ : {A B : Type 0} → Loaded A → (A → Loaded B) → Loaded B
loaded a >>= next = next a
exits >>= next = exits
throws e >>= next = throws e
out_of_fuel >>= next = out_of_fuel

infixl 5 ◌>>◌
abbrev pub ◌>>◌ : {B : Type 0} → Loaded (Unit {0}) → Loaded B → Loaded B
first >> next = first >>= λ _. next

abbrev pub field {ℓ κ} : {A : Type ℓ} {B : Type κ} → (A → Option B) → Option A → Option B
field f none = none
field f (some a) = f a

abbrev pub mapped {ℓ κ} : {A : Type ℓ} {B : Type κ} → (A → B) → Option A → Option B
mapped f none = none
mapped f (some a) = some (f a)

-- algorithm?.replace(/-/g, "_")
abbrev pub underscored : String → String
underscored String.[] = ""
underscored (String.◌∷◌ c s) =
    if code c == b'-' then String.◌∷◌ (char 95 tt) (underscored s) else String.◌∷◌ c (underscored s)

abbrev pub assert_valid_schema : (UserConfig → Bool) → UserConfig → Loaded (Unit {0})
assert_valid_schema is_valid config = if is_valid config then loaded tt else exits

abbrev pub map_base : ℤ → ConfigBase → Base
map_base now c = record {
  api_version = c.api_version;
  ref = c.ref;
  name = c.name;
  created_at = now;
  updated_at = now;
}

abbrev pub map_to_acl : Configs.AccessControlListConfig → Resources.AccessControlList
map_to_acl c = record {
  allow = get_or (field (λ rules. rules.allow) c.access_control_list) [];
  deny = get_or (field (λ rules. rules.deny) c.access_control_list) [];
}

abbrev pub map_to_credentials : Configs.CredentialsConfig → Resources.Credentials
map_to_credentials c = record { username = c.username; password = c.password }

abbrev pub map_to_agent : Configs.AgentConfig → Resources.Agent
map_to_agent c = record {
  username = c.username;
  privacy = get_or c.privacy "NONE";
  enabled = c.enabled;
  domain_ref = c.domain_ref;
  credentials_ref = c.credentials_ref;
  max_contacts = c.max_contacts;
  expires = c.expires;
}

abbrev pub normalize_algorithm : Option String → Option String
unfolding to_upper
normalize_algorithm algorithm = mapped (λ s. to_upper (underscored s)) algorithm

abbrev pub map_to_peer : Configs.PeerConfig → Resources.Peer
map_to_peer c = record {
  username = c.username;
  aor = c.aor;
  contact_addr = c.contact_addr;
  enabled = c.enabled;
  credentials_ref = c.credentials_ref;
  balancing_algorithm = normalize_algorithm (field (λ l. l.algorithm) c.load_balancing);
  with_session_affinity = field (λ l. l.with_session_affinity) c.load_balancing;
  max_contacts = c.max_contacts;
  expires = c.expires;
}

abbrev pub map_to_domain : Configs.DomainConfig → Resources.Domain
map_to_domain c = record {
  domain_uri = c.domain_uri;
  access_control_list_ref = c.access_control_list_ref;
}

abbrev pub map_to_number : Configs.NumberConfig → Resources.INumber
map_to_number c = record {
  city = c.geo_info.city;
  country = c.geo_info.country;
  country_iso_code = c.geo_info.country_iso_code;
  tel_url = c.tel_url;
  aor_link = c.aor_link;
  session_affinity_header = c.session_affinity_header;
  extra_headers = c.extra_headers;
  trunk_ref = c.trunk_ref;
}

abbrev pub map_uri : UriConfig → Resources.TrunkUri
unfolding to_upper
map_uri entry = record {
  user = entry.user;
  host = entry.host;
  port = entry.port;
  transport = mapped to_upper entry.transport;
  enabled = entry.enabled;
  weight = entry.weight;
  priority = entry.priority;
}

abbrev pub map_to_trunk : Configs.TrunkConfig → Resources.Trunk
map_to_trunk c = record {
  send_register = field (λ o. o.send_register) c.outbound;
  inbound_uri = field (λ i. i.uri) c.inbound;
  inbound_credentials_ref = field (λ i. i.credentials_ref) c.inbound;
  outbound_credentials_ref = field (λ o. o.credentials_ref) c.outbound;
  access_control_list_ref = field (λ i. i.access_control_list_ref) c.inbound;
  uris = mapped (map map_uri) (field (λ o. o.uris) c.outbound);
}

-- ===== src/Tests/Data.antt =====
-- A call from an endpoint of the local network 10.0.0.0/24, its routes, and the resources.
use routr.Prelude.{
  ℤ, pos, String, true, false, ◌&&◌, List, [], ◌∷◌, Option, none, some, ok, ◌==◌, string_eq, nat_eq,
  length, split, if◌then◌else◌,
}
use text.Mathlib.Text.{starts_with}
use routr.Sip.{
  MessageRequest, Route, NetInterface, Via, SipUri, Address, RouteHeader, HeaderModifier, Extension,
  Method, MessageType, add, remove,
}
use routr.Sip.Connect.{Agent, INumber, Trunk, Credentials, Domain}
use routr.Common.IpUtils.{IpLib}
use routr.Connect.Types.{ApiClient, Packages}

-- Four parts make an IPv4 address, and one network is known.
abbrev pub ip : IpLib
ip = record {
  is_valid_ipv4 = λ a. length (split b'.' a) == 4;
  is_valid_ipv6 = λ a. false;
  cidr_mask = λ a m. ok "24";
  contains = λ net addr. ok (net == "10.0.0.0/24" && starts_with addr "10.0.0.");
}

abbrev pub point : NetInterface
point = record { host = "0.0.0.0"; port = pos 5060; transport = "UDP" }

abbrev pub uri : String → String → SipUri
uri user host = record {
  user = some user;
  host = host;
  port = some (pos 5060);
  transport_param = none;
  lr_param = none;
  method_param = none;
  secure = none;
}

abbrev pub address : String → String → Address
address user host = record { uri = uri user host; display_name = none }

abbrev pub route_header : String → RouteHeader
route_header host = record { address = address "" host; parameters = none }

abbrev pub via : Via
via = record {
  host = "10.0.0.5";
  port = some (pos 5060);
  branch = some "z9hG4bK1";
  transport = "UDP";
  received = none;
  r_port_flag = none;
  r_port = none;
}

abbrev pub extension : String → String → Extension
extension name value = record { name = name; value = some value }

abbrev pub invite : MessageRequest
invite = record {
  ref = "call-1";
  edge_port_ref = "edge-1";
  method = Method.invite;
  sender = record { host = "10.0.0.5"; port = pos 5060; transport = "UDP" };
  listening_points = point ∷ [];
  external_addrs = "200.1.1.1" ∷ [];
  localnets = "10.0.0.0/24" ∷ [];
  message = record {
    message_type = MessageType.request;
    response_type = none;
    request_uri = some (uri "1002" "sip.local");
    from = record { address = address "1001" "sip.local"; tag = "a" };
    to = record { address = address "1002" "sip.local"; tag = none };
    contact = none;
    call_id = "call-1";
    expires = none;
    max_forwards = some (record { max_forwards = pos 70 });
    authorization = none;
    extensions = extension "privacy" "none" ∷ extension "Subject" "hi" ∷ [];
    via = via ∷ [];
    route = route_header "200.1.1.1" ∷ route_header "192.0.2.9" ∷ [];
    record_route = [];
    body = some "v=0";
  };
  metadata = none;
}

abbrev pub modifiers : List HeaderModifier
modifiers =
    record { name = "Privacy"; value = none; action = remove }
    ∷ record { name = "Privacy"; value = some "id"; action = add }
    ∷ []

abbrev pub contact : String → Option ℤ → Route
contact host sessions = record {
  user = some "1002";
  host = host;
  port = some (pos 5060);
  advertised_host = host;
  advertised_port = some (pos 5060);
  transport = some "UDP";
  registered_on = some (pos 1000);
  session_count = sessions;
  expires = some (pos 600);
  edge_port_ref = "edge-1";
  listening_points = point ∷ [];
  localnets = "10.0.0.0/24" ∷ [];
  external_addrs = "200.1.1.1" ∷ [];
  labels = none;
  headers = some modifiers;
  metadata = none;
}

abbrev pub near : Route
near = contact "10.0.0.7" (some (pos 4))

abbrev pub far : Route
far = contact "203.0.113.4" (some (pos 2))

abbrev pub now : ℤ
now = pos 2000

abbrev pub secret : Credentials
secret = record { username = "trunk"; password = "1234" }

abbrev pub trunk : Trunk
trunk = record {
  ref = "trunk-1";
  inbound_uri = "sip.local";
  access_control_list = some (record { ref = "acl-1"; allow = "10.0.0.0/24" ∷ []; deny = [] });
  inbound_credentials = some secret;
  outbound_credentials = some secret;
  uris = some (record { host = "pstn.example"; port = none; transport = none; user = none } ∷ []);
}

abbrev pub number : INumber
number = record {
  ref = "number-1";
  tel_url = "tel:+17853178070";
  aor_link = "backend:voice";
  session_affinity_header = none;
  extra_headers = none;
  trunk = some trunk;
  extended = none;
}

abbrev pub domain : Domain
domain = record {
  ref = "domain-1";
  domain_uri = "sip.local";
  egress_policies = some (record { rule = ".*"; number = some number } ∷ []);
}

abbrev pub john : Agent
john = record {
  ref = "agent-1";
  name = "John";
  username = "1001";
  privacy = some "id";
  domain = some domain;
  max_contacts = none;
  credentials = some (record { username = "1001"; password = "1234" });
  extended = none;
}

abbrev pub jane : Agent
jane = record john { ref = "agent-2"; name = "Jane"; username = "1002"; privacy = none }

abbrev known : Option String → List Agent
known none = []
known (some u) = if u == "1001" then john ∷ [] else if u == "1002" then jane ∷ [] else []

abbrev numbers : String → List INumber
numbers u = if u == "tel:+17853178070" then number ∷ [] else []

abbrev pub api : ApiClient
api = record {
  domains_by_uri = λ u. ok (domain ∷ []);
  numbers_by_tel_url = λ u. ok (numbers u);
  agents_by_username = λ u. ok (known u);
  peers_by_username = λ u. ok [];
  peers_by_aor = λ u. ok [];
  trunks_by_inbound_uri = λ u. ok (trunk ∷ []);
}

-- A text is its own digest.
abbrev pub packages : Packages
packages = record {
  md5hex = λ s. s;
  nonce = "n0";
  base64 = λ s. s;
  matches = λ rule text. ok true;
  verify = none;
  now = now;
}

-- ===== src/Tests/Connecting.antt =====
-- The connect processor.
use routr.Prelude.{◌≡◌, refl, false, [], ◌∷◌, Option, none, some, Result, ok, err}
use routr.Prelude.Exec.{pure}
use routr.Sip.{MessageRequest, Authorization, Route, Method}
use routr.Sip.Connect.{Credentials, RoutableResourceUnion}
use routr.Sip.Connect
use routr.Connect.Types.{ApiClient, LocationClient, Packages, RoutingDirection}
use routr.Connect.Types
use routr.Connect.Auth.{calculate_auth_response}
use routr.Connect.Responses.{Sent}
use routr.Connect.Access.{
  check_access_from_pstn, check_agent_or_peer_access, credentials_of, secret_of,
}
use routr.Connect.Access.Sound.{
  IsProven, IsFromTrunk, check_agent_or_peer_access_sound, check_access_from_pstn_sound,
}
use routr.Connect.Utils.{get_routing_direction}
use routr.Connect.Utils.Directions.{direction_table, get_routing_direction-table}
use routr.Connect.Router.{router}
use routr.Connect.Router.Admission.{IsAdmitted, router-IsAdmitted}
use routr.Connect.Router.Pstn.{agent_to_pstn, peer_to_pstn}
use routr.Connect.Handlers.{Settings}
use routr.Connect.Handlers.Register.{handle_register}
use routr.Connect.Handlers.Register.Entitled.{IsEntitled, handle_register-IsEntitled}
use routr.Connect.Handlers.Request.{handle_request}
use routr.Connect.Handlers.Request.Answers.{IsSentFor, handle_request_answers}
use routr.Connect.Tailor.{tailor}
use routr.Connect.Tailor.Effects.{IsTailored, tailor_lem}
use routr.Processor.Extensions.{is_named}
use routr.Processor.Helper.{get_edge_interface}
use routr.Common.Helper.{get_listening_point}
use routr.Processor.Alterations.{
  remove_self_routes, remove_authorization, is_self_route, fix_invalid_contact,
  remove_x_edge_port_ref, fix_request_uri, origin_interface, apply_x_headers, target_interface,
}
use routr.Tests.Data.{ip, api, packages, invite, john, number, secret, far}

connecting : Unit {0}
unfolding check_access_from_pstn check_agent_or_peer_access calculate_auth_response router
    agent_to_pstn peer_to_pstn tailor handle_request handle_register is_named remove_self_routes
    remove_authorization is_self_route get_listening_point fix_invalid_contact
    remove_x_edge_port_ref fix_request_uri get_edge_interface origin_interface apply_x_headers
    target_interface
connecting = tt

abbrev unanswered : Authorization
unanswered = record {
  realm = "sip.local";
  scheme = "Digest";
  nonce = "n0";
  c_nonce = "c0";
  nonce_count = 1;
  response = "";
  username = "1001";
  uri = "sip:1002@sip.local";
  algorithm = "MD5";
  qop = "auth";
  opaque = "";
}

-- The call with the digest that the credentials give.
abbrev proving : Option Credentials → MessageRequest
proving c = record invite {
  message = record invite.message {
    authorization = some (record unanswered {
      response = calculate_auth_response packages unanswered Method.invite (secret_of c);
    });
  };
}

abbrev from_john : MessageRequest
from_john = proving john.credentials

check_agent_or_peer_access_sound_example :
    (c : Option Credentials) × (credentials_of (some (Connect.agent john)) ≡ ok c)
    × IsProven packages from_john c
unfolding connecting
check_agent_or_peer_access_sound_example =
    check_agent_or_peer_access_sound packages from_john (some (Connect.agent john)) refl

check_access_from_pstn_sound_example :
    IsFromTrunk packages (proving (some secret)) ip api (some (Connect.number number))
unfolding connecting
check_access_from_pstn_sound_example =
    check_access_from_pstn_sound packages (proving (some secret)) ip api
      (some (Connect.number number)) refl

get_routing_direction-table_example :
    get_routing_direction (some (Connect.agent john)) (some (Connect.number number))
    ≡ direction_table (some (Connect.agent john)) (some (Connect.number number))
get_routing_direction-table_example =
    get_routing_direction-table (some (Connect.agent john)) (some (Connect.number number))

-- One contact for every address.
abbrev location : LocationClient (Unit {0})
location = record { add_route = λ r. pure tt; find_routes = λ r. pure (far ∷ []) }

abbrev found : Option Route
found = some (record far { metadata = none })

router-IsAdmitted_example : IsAdmitted packages ip api location from_john Types.agent_to_agent
unfolding connecting
router-IsAdmitted_example =
    router-IsAdmitted packages ip api location from_john Types.agent_to_agent found tt refl refl
      refl

abbrev settings : Settings
settings = record {
  packages = packages;
  ip = ip;
  phone = λ n v. none;
  enforces_e164 = false;
  enforces_mobile_prefix = false;
}

handle_request_answers_example :
    (sent : Sent) × ((handle_request settings api location from_john tt).0 ≡ ok sent)
    × IsSentFor settings api location from_john tt sent
handle_request_answers_example = handle_request_answers settings api location from_john tt

abbrev sent_on : Result MessageRequest → MessageRequest
sent_on (ok r) = r
sent_on (err _) = invite

tailor_lem_example : IsTailored ip far from_john (sent_on (tailor ip far from_john))
unfolding connecting
tailor_lem_example = tailor_lem ip far from_john (sent_on (tailor ip far from_john)) refl

handle_register-IsEntitled_example : IsEntitled settings api location from_john
unfolding connecting
handle_register-IsEntitled_example =
    handle_register-IsEntitled settings api location from_john tt refl

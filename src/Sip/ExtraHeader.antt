-- ===== src/Sip/ExtraHeader.antt =====
-- The names of the extra headers: ExtraHeader of mods/common/src/types.ts.
use routr.Prelude.{String}

abbrev pub gateway_auth : String
gateway_auth = "X-Gateway-Auth"

abbrev pub edgeport_ref : String
edgeport_ref = "X-Edgeport-Ref"

abbrev pub session_count : String
session_count = "X-Session-Count"

abbrev pub dod_number : String
dod_number = "X-DOD-Number"

abbrev pub dod_privacy : String
dod_privacy = "X-DOD-Privacy"

abbrev pub connect_token : String
connect_token = "X-Connect-Token"

abbrev pub call_direction : String
call_direction = "X-Call-Direction"

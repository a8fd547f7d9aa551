-- ===== src/Processor/Target.antt =====
-- mods/processor/src/target.ts
use routr.Prelude.{
  ℤ, String, false, [], ◌∷◌, Option, none, some, truthy, get_or, if◌then◌else◌, template,
}
use routr.Prelude.Int.{negsuc, ltb_ℤ}
use routr.Sip.{SipUri, MessageRequest, Contact, Expires}

abbrev pub get_aor : SipUri → String
get_aor uri = template (
    (if get_or uri.secure false then "sips" else "sip")
    ∷ ":"
    ∷ (if truthy uri.user then template (get_or uri.user "" ∷ "@" ∷ []) else "")
    ∷ uri.host
    ∷ [])

abbrev pub get_target_aor : MessageRequest → String
get_target_aor req = get_aor req.message.to.address.uri

abbrev contact_expires : Option Contact → ℤ
contact_expires none = negsuc 0
contact_expires (some c) = get_or c.expires (negsuc 0)

abbrev header_expires : Option Expires → ℤ
header_expires none = negsuc 0
header_expires (some e) = get_or e.expires (negsuc 0)

unfoldable pub get_target_expires : MessageRequest → ℤ
get_target_expires req =
    let expires = contact_expires req.message.contact in
    if ltb_ℤ (negsuc 0) expires then expires else header_expires req.message.expires

-- ===== src/Common/Helper.antt =====
-- mods/common/src/helper.ts. A `deepCopy` is the identity on values, which a model cannot mutate.
use routr.Prelude.{
  String, Bool, List, [], ◌∷◌, Option, none, some, Result, ok, err, error, ◌==◌, string_eq, find,
  truthy, if◌then◌else◌, to_upper, template, shown, get_or,
}
use routr.Sip.{NetInterface, udp}

-- The test on a listening point, for the transport that is asked for.
unfoldable pub serves : Option String → NetInterface → Bool
unfolding to_upper
serves transport lp =
    if truthy transport
    then to_upper lp.transport == to_upper (get_or transport "")
    else to_upper lp.transport == udp

unfoldable pub get_listening_point : List NetInterface → Option String → Result NetInterface
unfolding serves
get_listening_point listening_points transport = elim (find (serves transport) listening_points) [
  | none ↦ err (error (template ("no listening point found for transport " ∷ shown transport ∷ [])))
  | some lp ↦ ok lp
]

-- ===== src/Connect/Utils/Directions.antt =====
-- The directions of `getRoutingDirection`, by what the caller and the callee are.
use routr.Prelude.{◌≡◌, refl, Option, none, some}
use routr.Sip.Connect.{RoutableResourceUnion, agent, peer, number}
use routr.Connect.Types.{RoutingDirection}
use routr.Connect.Types
use routr.Connect.Utils.{get_routing_direction}

abbrev from_agent : Option RoutableResourceUnion → RoutingDirection
from_agent none = Types.agent_to_pstn
from_agent (some (agent _)) = Types.agent_to_agent
from_agent (some (peer _)) = Types.agent_to_peer
from_agent (some (number _)) = Types.from_pstn

abbrev from_peer : Option RoutableResourceUnion → RoutingDirection
from_peer none = Types.peer_to_pstn
from_peer (some (agent _)) = Types.peer_to_agent
from_peer (some (peer _)) = Types.unknown
from_peer (some (number _)) = Types.from_pstn

-- A number as the caller, or no caller.
abbrev from_outside : Option RoutableResourceUnion → RoutingDirection
from_outside none = Types.unknown
from_outside (some (agent _)) = Types.unknown
from_outside (some (peer _)) = Types.unknown
from_outside (some (number _)) = Types.from_pstn

abbrev pub direction_table :
    Option RoutableResourceUnion → Option RoutableResourceUnion → RoutingDirection
direction_table none callee = from_outside callee
direction_table (some (agent _)) callee = from_agent callee
direction_table (some (peer _)) callee = from_peer callee
direction_table (some (number _)) callee = from_outside callee

-- For every caller and callee the direction is that of the table by kinds: a number as the callee
-- is from the PSTN whoever calls; an agent calls an agent, a peer, or, for no callee, the PSTN; a
-- peer calls an agent or, for no callee, the PSTN; and every other pair is unknown.
pub get_routing_direction-table :
    (caller callee : Option RoutableResourceUnion)
    → get_routing_direction caller callee ≡ direction_table caller callee
unfolding get_routing_direction
get_routing_direction-table none none = refl
get_routing_direction-table none (some (agent _)) = refl
get_routing_direction-table none (some (peer _)) = refl
get_routing_direction-table none (some (number _)) = refl
get_routing_direction-table (some (agent _)) none = refl
get_routing_direction-table (some (agent _)) (some (agent _)) = refl
get_routing_direction-table (some (agent _)) (some (peer _)) = refl
get_routing_direction-table (some (agent _)) (some (number _)) = refl
get_routing_direction-table (some (peer _)) none = refl
get_routing_direction-table (some (peer _)) (some (agent _)) = refl
get_routing_direction-table (some (peer _)) (some (peer _)) = refl
get_routing_direction-table (some (peer _)) (some (number _)) = refl
get_routing_direction-table (some (number _)) none = refl
get_routing_direction-table (some (number _)) (some (agent _)) = refl
get_routing_direction-table (some (number _)) (some (peer _)) = refl
get_routing_direction-table (some (number _)) (some (number _)) = refl

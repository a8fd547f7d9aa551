-- ===== src/EdgePort.antt =====
-- mods/edgeport/src: the assertions on the configuration of an edge port, and its listening points.
-- The SIP stack, in Java, is a parameter.
pub mod Transports
pub mod ServerProperties
use routr.Prelude.{
  show_ℕ, ℕ, ℤ, String, Bool, true, false, not, ◌&&◌, ◌||◌, List, [], ◌∷◌, map, Option, none, some,
  Error, Result, ok, err, error, ◌>>=◌, ◌>>◌, throw_if, ◌==◌, nat_eq, string_eq, ltb, any, filter,
  length, get_or, template, to_lower, to_upper, if◌then◌else◌,
}

pub record Transport : Type 0 where
  pub protocol : String
  pub bind_addr : Option String
  pub port : ℕ

-- What is read of the configuration; `security_context` is whether there is one.
pub record EdgePortConfig : Type 0 where
  pub bind_addr : String
  pub transport : List Transport
  pub security_context : Bool
  pub external_addrs : Option (List String)
  pub localnets : Option (List String)

abbrev pub is_secure_proto : String → Bool
is_secure_proto proto = proto == "wss" || proto == "tls"

abbrev pub assert_has_security_context : EdgePortConfig → Result (Unit {0})
assert_has_security_context config =
    throw_if (any (λ t. is_secure_proto t.protocol) config.transport && not config.security_context)
      (error "found at least one secure protocol which requires setting the .spec.securityContext")

abbrev pub same_protocol : Transport → Transport → Bool
same_protocol t1 t2 = t1.protocol == t2.protocol

abbrev pub has_duplicated_proto : List Transport → Bool
has_duplicated_proto transports =
    any (λ t1. ltb 1 (length (filter (same_protocol t1) transports))) transports

abbrev pub assert_no_duplicated_proto : List Transport → Result (Unit {0})
assert_no_duplicated_proto transports =
    throw_if (has_duplicated_proto transports) (error "found duplicated entries at .spec.transport")

-- The first one has its protocol in upper case.
abbrev pub duplicate_condition : Transport → Transport → Bool
duplicate_condition t1 t2 =
    t1.port == t2.port && not (t1.protocol == "UDP") && not (t1.protocol == "TCP")

abbrev pub uppercased : Transport → Transport
unfolding to_upper
uppercased t = record t { protocol = to_upper t.protocol }

abbrev pub has_duplicated_port : List Transport → Bool
has_duplicated_port transports =
    any (λ t1. ltb 1 (length (filter (duplicate_condition t1) transports)))
      (map uppercased transports)

abbrev pub assert_no_duplicated_port : List Transport → Result (Unit {0})
assert_no_duplicated_port transports =
    throw_if (has_duplicated_port transports)
      (error "found the same port on more that one entry at .spec.transport")

-- The start of `edgePort`.
unfoldable pub assert_config : EdgePortConfig → Result (Unit {0})
assert_config config = do
  assert_no_duplicated_proto config.transport
  assert_no_duplicated_port config.transport
  assert_has_security_context config

-- The addresses of the environment, or else those of the configuration.
abbrev pub addresses : List String → Option (List String) → List String
addresses [] configured = get_or configured []
addresses (a ∷ rest) configured = a ∷ rest

-- `createListeningPoint` of the stack may throw; what it throws is not passed on.
module _ {Point : Type 0} (create_point : String → ℕ → String → Result Point) where
  abbrev pub bound : Result Point → (proto addr : String) → ℕ → Result Point
  bound (ok point) proto addr port = ok point
  bound (err _) proto addr port =
      err (error (template ("unable to bind " ∷ proto ∷ "://" ∷ addr ∷ ":" ∷ show_ℕ port ∷ [])))

  unfoldable pub create_listening_points : String → List Transport → Result (List Point)
  unfolding to_lower
  create_listening_points bind_addr [] = ok []
  create_listening_points bind_addr (t ∷ ts) = do
    point ←
        bound (create_point (get_or t.bind_addr bind_addr) t.port (to_lower t.protocol))
          (to_lower t.protocol) (get_or t.bind_addr bind_addr) t.port
    points ← create_listening_points bind_addr ts
    ok (point ∷ points)

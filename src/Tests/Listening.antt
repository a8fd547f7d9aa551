-- ===== src/Tests/Listening.antt =====
-- The configuration of an edge port.
use routr.Prelude.{◌≡◌, ◌≢◌, ◌⊎◌, refl, true, [], ◌∷◌, none, to_upper}
use routr.EdgePort.{Transport, EdgePortConfig, assert_config}
use routr.EdgePort.Transports.{is_plain, accepted_transports}

abbrev udp : Transport
udp = record { protocol = "udp"; bind_addr = none; port = 5060 }

abbrev tcp : Transport
tcp = record udp { protocol = "tcp" }

abbrev config : EdgePortConfig
config = record {
  bind_addr = "0.0.0.0";
  transport = udp ∷ tcp ∷ [];
  security_context = true;
  external_addrs = none;
  localnets = none;
}

accepted_transports_example :
    (udp.protocol ≢ tcp.protocol)
    × ((udp.port ≢ tcp.port) ⊎ (is_plain udp ≡ true) × (is_plain tcp ≡ true))
unfolding assert_config to_upper
accepted_transports_example = accepted_transports [] udp [] tcp [] config refl refl

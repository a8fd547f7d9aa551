-- ===== src/Tests/Registering.antt =====
-- The registry of trunks.
use routr.Prelude.{show_number, pos, ◌≡◌, refl, true, [], ◌∷◌, none, ok, All}
use routr.Registry.Types.{Packages, RegistryConfig}
use routr.Registry.Store.{create, list}
use routr.Registry.Service.{
  Requester, Registry, is_stored, get_unregistered_trunks, registration_round, register_all,
  entry_of,
}
use routr.Registry.Service.Rounds.{registration_round-lists}
use routr.Tests.Data.{invite, trunk}

abbrev packages : Packages
packages = record { base64 = λ s. s; uniqid = "1"; uniqid_time = "2" }

abbrev config : RegistryConfig
config = record {
  edge_ports = record { address = "10.0.0.1:5060"; region = "default" } ∷ [];
  register_interval = none;
  methods = none;
}

-- Every request is answered, with the default expiry.
abbrev accepting : Requester
accepting request = ok invite.message

abbrev registry : Registry
registry = record { store = create 10000; cseq = 1 }

registration_round-lists_example :
    All
      (λ t.
        is_stored
          (list
            (pos 400000)
            (registration_round packages config accepting
              (pos 0)
              (pos 0)
              (ok (trunk ∷ []))
              registry).store)
          t
        ≡ true)
      (get_unregistered_trunks (pos 0) registry.store (trunk ∷ []))
unfolding get_unregistered_trunks register_all entry_of show_number
registration_round-lists_example =
    registration_round-lists packages config accepting (pos 0) (pos 400000) (pos 0) (trunk ∷ [])
      registry refl (refl, tt)

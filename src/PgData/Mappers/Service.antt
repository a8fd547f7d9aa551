-- ===== src/PgData/Mappers/Service.antt =====
-- The manager of every kind, as the handlers of mods/pgdata/src/api use it, with `struct` of the
-- package pb-util given.
use routr.Prelude.{List, map, Option, none, some}
use routr.Validations.Assertions
use routr.PgData.Requests.{Request}
use routr.PgData.Api.{Manager}
use routr.PgData.Mappers.{Base, TrunkUri}
use routr.PgData.Mappers.Kinds.{
  Resource, acl, credentials, agent, peer, domain, trunk, number, map_to_prisma, map_to_dto,
}

abbrev checked_uri : TrunkUri → Assertions.TrunkUri
checked_uri uri = record {
  host = some uri.host;
  port = some uri.port;
  priority = some uri.priority;
  weight = some uri.weight;
}

abbrev checked_uris : Option (List TrunkUri) → Option (List Assertions.TrunkUri)
checked_uris none = none
checked_uris (some uris) = some (map checked_uri uris)

module _ {J : Type 0} where
  -- The fields that the managers check.
  abbrev pub request_of : Resource J → Request
  request_of (acl r) =
      Request.acl (record { ref = r.base.ref; name = r.base.name; deny = r.deny; allow = r.allow })
  request_of (credentials r) = Request.credentials (record {
    ref = r.base.ref;
    name = r.base.name;
    username = r.username;
    password = r.password;
  })
  request_of (agent r) =
      Request.agent (record { ref = r.base.ref; name = r.base.name; username = r.username })
  request_of (peer r) = Request.peer (record {
    ref = r.base.ref;
    name = r.base.name;
    username = r.username;
    aor = r.aor;
    contact_addr = r.contact_addr;
  })
  request_of (domain r) =
      Request.domain (record { ref = r.base.ref; name = r.base.name; domain_uri = r.domain_uri })
  request_of (trunk r) = Request.trunk (record {
    ref = r.base.ref;
    name = r.base.name;
    inbound_uri = r.inbound_uri;
    uris = checked_uris r.uris;
  })
  request_of (number r) = Request.number (record {
    ref = r.base.ref;
    name = r.base.name;
    tel_url = r.tel_url;
    aor_link = r.aor_link;
    city = r.city;
    country = r.country;
    country_iso_code = r.country_iso_code;
    extra_headers = r.extra_headers;
    session_affinity_header = r.session_affinity_header;
  })

  abbrev pub mapped : (J → J) → Option J → Option J
  mapped f none = none
  mapped f (some j) = some (f j)

  abbrev on_base : (J → J) → Base J → Base J
  on_base f b = record b { extended = mapped f b.extended }

  -- if (x.extended) x.extended = f(x.extended)
  abbrev pub on_extended : (J → J) → Resource J → Resource J
  on_extended f (acl r) = acl (record r { base = on_base f r.base })
  on_extended f (credentials r) = credentials (record r { base = on_base f r.base })
  on_extended f (agent r) = agent (record r { base = on_base f r.base })
  on_extended f (peer r) = peer (record r { base = on_base f r.base })
  on_extended f (domain r) = domain (record r { base = on_base f r.base })
  on_extended f (trunk r) = trunk (record r { base = on_base f r.base })
  on_extended f (number r) = number (record r { base = on_base f r.base })

  unfoldable pub manager :
      (encode decode : J → J) → Manager (Resource J) (Resource J) (Resource J) (Resource J)
  unfolding map_to_prisma map_to_dto
  manager encode decode = record {
    request_of = request_of;
    map_to_prisma = map_to_prisma;
    map_to_dto = map_to_dto;
    decode_extended = on_extended decode;
    encode_extended = on_extended encode;
  }

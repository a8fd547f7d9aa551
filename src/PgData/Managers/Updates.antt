-- ===== src/PgData/Managers/Updates.antt =====
-- Creating and updating the same resource: mods/pgdata/src/mappers.
use routr.Prelude.{◌≡◌, true, truthy, arith}
use routr.Validations.{Packages}
use routr.Validations.Assertions.{passes}
use routr.PgData.Requests.{Request, acl, credentials, agent, peer, domain, trunk, number, ref_of}
use routr.PgData.Managers.{Environment, valid_or_throw_create, valid_or_throw_update}

module _ (p : Packages) (env : Environment) where
  -- A resource of any kind that can be created can be updated with the same fields, once it has a
  -- reference.
  pub update_of_create :
      (r : Request)
      → valid_or_throw_create p env r ≡ passes
      → truthy (ref_of r) ≡ true
      → valid_or_throw_update p env r ≡ passes
  unfolding valid_or_throw_create valid_or_throw_update
  update_of_create (acl r) h ref = ground arith
  update_of_create (credentials r) h ref = ground arith
  update_of_create (agent r) h ref = ground arith
  update_of_create (peer r) h ref = ground arith
  update_of_create (domain r) h ref = ground arith
  update_of_create (trunk r) h ref = ground arith
  update_of_create (number r) h ref = ground arith

-- ===== src/PgData.antt =====
-- mods/pgdata: the data service over a relational database.
pub mod Requests
pub mod Managers
pub mod Mappers
pub mod Api

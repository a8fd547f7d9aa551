-- ===== src/SimpleData.antt =====
-- mods/simpledata: the data service over configuration files.
pub mod Configs
pub mod Resources
pub mod Mappers
pub mod Loaders
pub mod Api

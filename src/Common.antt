-- ===== src/Common.antt =====
-- mods/common/src: the address functions and the lookup of a listening point.
pub mod IpUtils
pub mod Helper
pub mod Redis
pub mod ApiClient

-- ===== src/Processor.antt =====
-- mods/processor/src: what every processor does to a request.
pub mod Helper
pub mod Extensions
pub mod Alterations
pub mod Target
pub mod EdgeInterface
pub mod Hops
pub mod SelfRoutes
pub mod HeaderRewrite

-- ===== src/Sip.antt =====
-- The data model: mods/common/src/types.ts and mods/common/src/connect/types.ts.
mod Enums
mod Message
mod Request
pub mod Connect
pub mod ExtraHeader
pub use Enums.*
pub use Message.*
pub use Request.*

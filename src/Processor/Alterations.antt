-- ===== src/Processor/Alterations.antt =====
-- mods/processor/src/alterations.ts: the functions from a request to a request that the processors
-- compose. One that may throw returns a `Result`. The definitions stand in the child modules.
pub mod Via
mod Routing
mod Headers
mod Contact
unfoldable pub use Via.*
unfoldable pub use Routing.*
unfoldable pub use Headers.*
unfoldable pub use Contact.*

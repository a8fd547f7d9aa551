-- ===== src/Connect.antt =====
-- mods/connect/src: the processor that routes calls between agents, peers and trunks.
pub mod Types
pub mod Auth
pub mod Responses
pub mod Utils
pub mod Tailor
pub mod Access
pub mod Router
pub mod Handlers

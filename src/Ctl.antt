-- ===== src/Ctl.antt =====
-- mods/ctl: the command line.
pub mod Paging
pub mod Texts
pub mod Validators
pub mod Prompts
pub mod Countries
pub mod Create
pub mod Update
pub mod Delete

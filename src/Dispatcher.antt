-- ===== src/Dispatcher.antt =====
-- mods/dispatcher/src: which processor and which middlewares a request goes through.
pub mod FindProcessor
pub mod Types
pub mod RunMiddlewares
pub mod RunProcessor
pub mod Processor

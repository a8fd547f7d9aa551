-- ===== src/Tests.antt =====
-- The theorems at concrete inputs, on the messages and resources of Tests/Data.antt.
mod Creating
mod Mapping
mod Caching
mod Composing
mod Data
mod Processing
mod Locating
mod Dispatching
mod Connecting
mod Guarding
mod Registering
mod Storing
mod Loading
mod Listening

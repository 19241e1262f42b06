-- ===== src/Tests.antt =====
-- The theorems at concrete data. Nothing uses these modules.
pub mod Arguments
pub mod Codecs
pub mod Tables
pub mod Relay
pub mod Http
pub mod Runs
pub mod Client
pub mod Endpoints
pub mod Identity
pub mod Contacts
pub mod EndToEnd
pub mod Session
pub mod Web
pub mod Setup
pub mod Tasks

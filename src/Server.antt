-- ===== src/Server.antt =====
-- server/src: the relay server, its database and its handlers.
pub mod Sqlite
pub mod Directory
pub mod State
pub mod Hex
pub mod Http
pub mod Payload
pub mod Delivery
pub mod Connection
pub mod System
pub mod Router
pub mod Startup
pub mod PostOffice
pub mod Copies
pub mod Tasks

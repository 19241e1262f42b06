-- ===== src/Client.antt =====
-- The client: client/src/crypto.rs, server_api.rs, contacts.rs and main.rs.
pub mod Crypto
pub mod Files
pub mod Keys
pub mod Identity
pub mod Contacts
pub mod Directory
pub mod Messages
pub mod Sending
pub mod Endpoints
pub mod Arguments
pub mod Commands
pub mod Startup

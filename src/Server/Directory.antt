-- ===== src/Server/Directory.antt =====
-- server/src/directory.rs. Each SQL text of the source is a function on the tables; each
-- `pub async fn` runs its statements in the order of the source and stops at the first that fails.
pub mod Schema
pub mod Keys
pub mod Queue

-- ===== src/Shared.antt =====
-- shared/src/lib.rs: the messages that clients and the relay exchange, and the tests on their
-- fields. The children hold one message type each.
pub mod Codec
pub mod Plaintext
pub mod Encrypted
pub mod Routed
pub mod Registration
pub mod Validation

-- ===== src/Server.antt =====
-- The request translators of src/server.
pub mod Base64
pub mod RoundTrip
pub mod Errors
pub mod Tests

-- ===== src/Streams.antt =====
-- stream, internal/stream and the restarts of negotiator.go.
pub mod Version
pub mod Header
pub mod Carried
pub mod Expected
pub mod Restart
pub mod Failure
pub mod Tests

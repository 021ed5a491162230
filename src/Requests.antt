-- ===== src/Requests.antt =====
-- What the server keeps per request and per client: server/cancellation.go, server/session.go.
pub mod Cancellation
pub mod Sessions
pub mod Overwriting
pub mod Tests

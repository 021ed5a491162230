-- ===== src/Progress.antt =====
-- Progress notifications: mcp/progress.go and server/progress.go. Each part is used from its own
-- module.
pub mod Floats
pub mod Notifications
pub mod Tokens
pub mod Channel
pub mod RateLimiter
pub mod Server
pub mod Sending
pub mod Rates
pub mod Buffers
pub mod Order
pub mod Direct
pub mod Calls
pub mod Managing
pub mod History
pub mod Subscriptions
pub mod Faults
pub mod Reporter
pub mod Reports
pub mod Ascending
pub mod Validity
pub mod Tests

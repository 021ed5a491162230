-- ===== src/Serving.antt =====
-- The server's side of the protocol (server/): the answers to messages, the requests that the server
-- sends, the sampling limits, the notifications, the lists and the subscriptions.
pub mod Json
pub mod Cache
pub mod Limits
pub mod Limiting
pub mod State
pub mod Registry
pub mod Subscriptions
pub mod Request
pub mod Roots
pub mod Initialize
pub mod Handlers
pub mod Dispatch
pub mod Answers
pub mod Frames
pub mod Histories
pub mod Sampling
pub mod Requesting
pub mod Retrying
pub mod Lists
pub mod Paging
pub mod Missing
mod Tests
pub mod Tracker
pub mod Tracking

-- ===== src/Clients.antt =====
-- The client's side of the protocol (client/).
pub mod Listing
pub mod Roots
pub mod Lifecycle
pub mod Connections
pub mod Closing
mod Tests

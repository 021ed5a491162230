-- ===== src/Udp.antt =====
-- transport/udp: datagrams with a header, fragmentation, reassembly and retransmission.
pub mod Crc
pub mod Header
pub mod Reliability
pub mod Transport
pub mod Faults
pub mod Lifecycle
pub mod Send
pub mod Receive
mod Tests
pub mod Transfer

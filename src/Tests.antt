-- ===== src/Tests.antt =====
-- Theorems applied at concrete inputs, and runs of the definitions.
pub mod Lists
pub mod Scenario
pub mod Metric
pub mod Dual
pub mod Topology
pub mod Receive
pub mod Packet
pub mod Send
pub mod Streams
pub mod Codec
pub mod Filtered
pub mod Queue
pub mod Retransmit
pub mod Update
pub mod Peers
pub mod Hello
pub mod Lookup
pub mod Lifetime
pub mod Sending

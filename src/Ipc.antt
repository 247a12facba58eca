-- ===== src/Ipc.antt =====
-- The replication between nodes: src/pcrf_ipc.cpp.
pub mod Payload
pub mod Codes
pub mod Pack
pub mod Process
pub mod Delivery
pub mod Fields
pub mod Replication
pub mod Failures

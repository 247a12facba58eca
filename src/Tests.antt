-- ===== src/Tests.antt =====
-- Concrete instances of the theorems, on small inputs.
pub mod Packets
pub mod Messages
pub mod Sessions
pub mod SqlQueues
pub mod RuleSets
pub mod Connections
pub mod Refreshes
pub mod Locations
pub mod Defaults
pub mod Records
pub mod Requests
pub mod Avps
pub mod Exchanges

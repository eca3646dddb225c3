-- ===== src/Tests.antt =====
-- The theorems at concrete inputs.
pub mod Leases
pub mod Routes
pub mod Brokers
pub mod Helpers
pub mod Peers
pub mod Bridges
pub mod Frames
pub mod Transcripts
pub mod Codec
pub mod Grants
pub mod Proxies
pub mod Rpcs
pub mod Sessions

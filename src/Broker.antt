-- ===== src/Broker.antt =====
-- crates/privileged-bridge/src/broker.rs: the session of the one Host, between the lease manager,
-- the routed session and the Helper; and the loop of runtime.rs that drives it.
pub mod Core
pub mod Routing
pub mod Session
pub mod Handle
pub mod Forwarding
pub mod Replies
pub mod Guard
pub mod Sync
pub mod Progress

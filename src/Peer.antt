-- ===== src/Peer.antt =====
-- crates/host-webrtc/src/session.rs: one remote session of the Host, and the slot that it takes.
pub mod Types
pub mod Session
pub mod Input
pub mod Gate
pub mod Closing
pub mod States
pub mod Sequences

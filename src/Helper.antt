-- ===== src/Helper.antt =====
-- crates/privileged-bridge/src/helper.rs: the Helper's side of the bridge. The native backend is a
-- trait object there: here a state with its operations.
pub mod Gate
pub mod Frames
pub mod Protocol
pub mod Answers
pub mod Binding
pub mod Failure
pub mod Events
pub mod Bridge

-- ===== src/Lib.antt =====
-- Roammand: the privileged bridge, the remote session of the Host, and its controller grants.
--
-- A remote session runs in the Host (crates/host-webrtc). Where the desktop is not the user's own
-- (a login screen, a secure desktop), the Host asks a privileged broker for a lease, and the
-- broker forwards the Host's requests to a Helper in the routed graphical session
-- (crates/privileged-bridge). The two talk in length-prefixed frames (crates/ipc).
--
-- Lease: crates/privileged-bridge/src/lease.rs. `LeaseManager` is a record of the same fields, and
--   a method on `&mut self` returns the manager that it leaves beside its result. `acquire` takes
--   what the random source draws, `none` for a failure. Lease/Trace has the calls as one data type
--   and their histories.
-- Route: crates/privileged-bridge/src/session.rs. `SessionStateMachine`, `apply` and
--   `begin_control`; the vector of effects is a list in the order in which they are pushed.
-- Messages: the frames of gen/rust/src/generated/roammand.v1.rs. Messages of the same fields share
--   a record.
-- Broker: crates/privileged-bridge/src/broker.rs. Broker/Core is `BrokerCore`, Broker/Routing the
--   free functions, Broker/Session and Broker/Handle are `HostBrokerSession`, over any Helper: a
--   state with `exchange`, `try_event` and `fail_closed`. A failed request may leave the operation
--   counter ahead of the lease's: `run_host_session` (runtime.rs) ends the session at the first one.
-- Helper: crates/privileged-bridge/src/helper.rs. Helper/Gate is `HelperLeaseGate`, Helper/Frames
--   the frames, Helper/Protocol is `HelperProtocol`, over any backend. Helper/Bridge joins the
--   broker to this Helper the way crates/privileged-bridge/src/runtime.rs does. Which frames pass
--   between the two, with the codec, the limits, the validation on both sides and the test of id
--   and number of `FramedBridgeRpc::call`, is a parameter (`Passage`), a test on frames: one that
--   passes arrives as it was sent, which a codec that decodes what it encodes gives; one that does
--   not, or an error of the Helper, closes the Helper, and the broker sees a failed call.
-- Frame: crates/ipc/src/framing.rs. The decoder's loop runs on fuel, one unit for each byte of the
--   chunk; each pass copies at least one byte, so this is enough. Frame/Reading has a
--   specification of it, a reader of single bytes; Frame/Bytewise and Frame/Total are steps on the
--   way there.
-- Bridge: crates/privileged-bridge/src/framing.rs. One frame of at most 256 KiB per message, the
--   tracker of pending requests, its set a list of its members, and the queue of events.
-- Peer: crates/host-webrtc/src/session.rs, with the types of config.rs, peer.rs, input.rs and
--   lib.rs beside it. Peer/Session and Peer/Input are `HostPeerSession`, over any peer backend and
--   any input sink, and Peer/Gate is `SessionGate`. The sets of pressed keys and buttons are lists
--   of their members. How an envelope is decoded is a parameter. The peer and the sink have a state
--   each, so that the order of a call on one and a call on the other is not seen.
-- Proxy: crates/privileged-bridge/src/proxy.rs, the Host's side of the bridge. Its four parts share
--   one state behind a mutex: here each call takes that state, and Proxy/Logged has the calls of all
--   parts in any order, over a wire that records its requests.
-- Rpc: crates/privileged-bridge/src/rpc.rs over any transport (transport.rs). The loop of `call`
--   runs on fuel, one unit for each frame that it receives; more fuel than the frames to come is
--   enough, and where a peer sends fast pointer events without end the loop has no end either.
-- Validation: the checks of gen/rust/src/validation.rs on the frames of the bridge, on statuses,
--   errors and identities. Decoding by prost is a parameter. Validation/Granted joins them to the
--   broker.
-- Transcript: gen/rust/src/canonical_transcript.rs, the bytes that are signed. A reader is the bytes
--   that are left; the fields are read by recursion on their number.
-- Grants: crates/host-agent/src/authorization.rs and grant_store.rs. A BTreeMap is the list of its
--   entries in order (Grants/Maps), the registry owns the state of its store, and random bytes are
--   given to a call by the number of attempts left (16). Grants/Files has the two stores, the
--   envelope and the steps of a write (crates/host-platform/src/restricted_fs.rs, as on Unix), each
--   step succeeding or not as `Os` says. SHA-256, the test of a point of Ed25519 and the encoding of
--   a snapshot are parameters.
-- Sessions: crates/host-agent/src/sessions.rs, the map of active sessions; what it broadcasts is a
--   list.
-- Tests: concrete inputs.
--
-- A u64 or u32 is a natural number, with the overflow checks of the source written out; a byte is
-- a natural number too, and a string is a list of Unicode scalar values whose length in bytes is
-- computed. Not modelled: the handshakes, which rest on HMAC and random bytes, the operating-system
-- runtimes, threads and timers, the services and remote sessions of the host agent, the
-- checks on signaling, pairing and input envelopes, and the Dart and Go programs.
pub mod Base
pub mod Lease
pub mod Route
pub mod Messages
pub mod Broker
pub mod Helper
pub mod Frame
pub mod Bridge
pub mod Peer
pub mod Transcript
pub mod Validation
pub mod Proxy
pub mod Rpc
pub mod Grants
pub mod Sessions
pub mod Tests

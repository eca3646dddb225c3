-- ===== src/Validation/Granted.antt =====
-- The lease that the broker answers with passes the checks of gen/rust/src/validation.rs.
use roammand.Base.{
  ℕ, ◌≤◌, ◌≡◌, refl, ap, sym, subst, ◌∙◌, Option, some, List, Bytes, length, ok, Result-cases, inl,
  inr, arith, Option-cases,
}
use roammand.Lease.{LeaseId, Lease, LeaseManager, AcquireLease, LeaseError}
use roammand.Lease
use roammand.Lease.Terms.{acquire-ok_iff, fresh_lease}
use roammand.Messages
use roammand.Messages.{
  AcquirePrivilegedLeaseRequest, PrivilegedBridgeClientFrame, PrivilegedBridgeServerFrame,
  PrivilegedLease,
}
use roammand.Broker.Core
use roammand.Broker.Core.{BrokerCore}
use roammand.Broker.Routing.{lease_response}
use roammand.Broker.Session.{BrokerHelper, HostBrokerSession, acquire, may_control}
use roammand.Validation.{validate_length, validate_protocol_version, validate_encoded_length}
use roammand.Validation.Frames.{
  validate_generation, validate_privileged_lease_ref, validate_privileged_lease,
  validate_privileged_bridge_client_payload, validate_privileged_bridge_frame_header,
  decode_and_validate_privileged_bridge_client_frame,
  decode_and_validate_privileged_bridge_server_frame, max_privileged_bridge_frame_bytes,
  validate_privileged_bridge_server_payload,
}

-- The lease as the broker sends it.
abbrev sent_lease : Lease → List ℕ → PrivilegedLease
sent_lease l permissions = record {
  lease_id = l.id;
  generation = l.generation;
  issued_at_unix_ms = l.issued_at_ms;
  expires_at_unix_ms = l.expires_at_ms;
  session_id = l.session_id;
  permissions = permissions;
  controller_display_name = l.controller_display_name;
}

fresh-validated :
    (value : AcquirePrivilegedLeaseRequest) (acquired : AcquireLease) (now_ms : ℕ) (id : LeaseId)
    → acquired.session_id ≡ value.session_id
    → acquired.generation ≡ value.generation
    → acquired.controller_display_name ≡ value.controller_display_name
    → length id ≡ 16
    → validate_privileged_bridge_client_payload (Messages.acquire_lease value) ≡ ok tt
    → validate_privileged_lease (sent_lease (fresh_lease acquired now_ms id) value.permissions)
      ≡ ok tt
unfolding validate_privileged_bridge_client_payload validate_privileged_lease
    validate_privileged_lease_ref validate_length validate_generation
fresh-validated value acquired now_ms id e1 e2 e3 sized v = ground arith

core_acquire :
    (b : BrokerCore) (acquired : AcquireLease) (now_ms : ℕ) (drawn : Option LeaseId)
    → (Core.acquire b acquired now_ms drawn).1 ≡ (Lease.acquire b.leases acquired now_ms drawn).1
unfolding Core.acquire
core_acquire b acquired now_ms drawn = refl

-- Each draw gives 16 bytes.
abbrev pub IsDrawn : Option LeaseId → Type 0
IsDrawn drawn = (id : LeaseId) → drawn ≡ some id → length id ≡ 16

granted-validated :
    (b : BrokerCore) (value : AcquirePrivilegedLeaseRequest) (acquired : AcquireLease) (now_ms : ℕ)
    (drawn : Option LeaseId) (l : Lease)
    → acquired.session_id ≡ value.session_id
    → acquired.generation ≡ value.generation
    → acquired.controller_display_name ≡ value.controller_display_name
    → IsDrawn drawn
    → validate_privileged_bridge_client_payload (Messages.acquire_lease value) ≡ ok tt
    → (Core.acquire b acquired now_ms drawn).1 ≡ ok l
    → validate_privileged_lease (sent_lease l value.permissions) ≡ ok tt
granted-validated b value acquired now_ms drawn l e1 e2 e3 d v h =
    let (g, same) =
      (acquire-ok_iff b.leases acquired now_ms drawn l).0
        (sym (core_acquire b acquired now_ms drawn) ∙ h) in
    subst (λ t. validate_privileged_lease (sent_lease t value.permissions) ≡ ok tt) (sym same)
      (fresh-validated value acquired now_ms l.id e1 e2 e3 (d l.id g.random) v)

client_frame_ok :
    (decode : Bytes → Option PrivilegedBridgeClientFrame) (encoded : Bytes)
    (frame : PrivilegedBridgeClientFrame) (payload : Messages.ClientPayload)
    → decode_and_validate_privileged_bridge_client_frame decode encoded ≡ ok frame
    → frame.payload ≡ some payload
    → (validate_privileged_bridge_frame_header frame.protocol_version frame.request_id
          frame.sequence
        ≡ ok tt)
      × (validate_privileged_bridge_client_payload payload ≡ ok tt)
unfolding decode_and_validate_privileged_bridge_client_frame
client_frame_ok decode encoded frame payload h p = elim (Option-cases (decode encoded)) [
  | inl e ↦ absurd (ground arith)
  | inr (found, e) ↦ ground arith
]

lease_frame_ok :
    (decode : Bytes → Option PrivilegedBridgeServerFrame) (encoded : Bytes)
    (request : PrivilegedBridgeClientFrame) (response : PrivilegedBridgeServerFrame) (l : Lease)
    (permissions : List ℕ)
    → validate_privileged_bridge_frame_header request.protocol_version request.request_id
        request.sequence
      ≡ ok tt
    → response ≡ lease_response request l permissions
    → validate_privileged_lease (sent_lease l permissions) ≡ ok tt
    → decode encoded ≡ some response
    → length encoded ≤ max_privileged_bridge_frame_bytes
    → decode_and_validate_privileged_bridge_server_frame decode encoded ≡ ok response
unfolding decode_and_validate_privileged_bridge_server_frame validate_privileged_bridge_frame_header
    validate_privileged_bridge_server_payload validate_protocol_version validate_encoded_length
    lease_response
lease_frame_ok decode encoded request response l permissions header same good q short =
    rw same (rw (q ∙ ap some same) (ground arith))

module _ {H : Type 0} (api : BrokerHelper H) where
  acquire_ok :
      (s : HostBrokerSession H) (request : PrivilegedBridgeClientFrame)
      (value : AcquirePrivilegedLeaseRequest) (now_ms : ℕ) (drawn : Option LeaseId)
      (response : PrivilegedBridgeServerFrame)
      → IsDrawn drawn
      → validate_privileged_bridge_client_payload (Messages.acquire_lease value) ≡ ok tt
      → (acquire api s request value now_ms drawn).1 ≡ ok response
      → (l : Lease) × (response ≡ lease_response request l value.permissions)
        × (validate_privileged_lease (sent_lease l value.permissions) ≡ ok tt)
  unfolding acquire
  acquire_ok s request value now_ms drawn response d v h =
      let acquired : AcquireLease = record {
        session_id = value.session_id;
        generation = value.generation;
        controller_display_name = value.controller_display_name;
        may_control_input = may_control value.permissions;
      } in
      elim (Result-cases (Core.acquire s.broker acquired now_ms drawn).1) [
        | inr (x, e) ↦ absurd (ground arith)
        | inl (l, e) ↦
            let good =
              granted-validated s.broker value acquired now_ms drawn l refl refl refl d v e in
            (l, ground arith, good)
      ]

  -- If the broker answers a frame that has passed the validation of a client frame and asks for a
  -- lease, with a random identifier of 16 bytes if any, then its response passes the validation of
  -- a server frame, once it is encoded within the limit of a frame.
  pub acquire-validated :
      (s : HostBrokerSession H) (request : PrivilegedBridgeClientFrame)
      (value : AcquirePrivilegedLeaseRequest) (now_ms : ℕ) (drawn : Option LeaseId)
      (response : PrivilegedBridgeServerFrame)
      (decode_request : Bytes → Option PrivilegedBridgeClientFrame)
      (decode_response : Bytes → Option PrivilegedBridgeServerFrame) (received sent : Bytes)
      → IsDrawn drawn
      → decode_and_validate_privileged_bridge_client_frame decode_request received ≡ ok request
      → request.payload ≡ some (Messages.acquire_lease value)
      → (acquire api s request value now_ms drawn).1 ≡ ok response
      → decode_response sent ≡ some response
      → length sent ≤ max_privileged_bridge_frame_bytes
      → decode_and_validate_privileged_bridge_server_frame decode_response sent ≡ ok response
  acquire-validated s request value now_ms drawn response decode_request decode_response received
        sent d r p h q short =
      let (header, valid) =
        client_frame_ok decode_request received request (Messages.acquire_lease value) r p in
      let (l, same, good) = acquire_ok s request value now_ms drawn response d valid h in
      lease_frame_ok decode_response sent request response l value.permissions header same good q
        short

-- ===== src/Tests/Rpcs.antt =====
-- A transport that has two events before the response, and a lease request that is validated.
use roammand.Validation.{
  validate_encoded_length, validate_protocol_version, validate_utf8_length, validate_length,
  validate_nonzero_enum, enum_of, validate_nonempty_utf8_length,
}
use roammand.Tests.Brokers.{accepting, session_with}
use roammand.Base.{
  ℕ, zero, suc, ◌≡◌, inl, inr, refl, false, Option, none, some, [], ◌∷◌, Bytes, Call, ok, err,
  arith, text_len, is_control, bytes_eq,
}
use roammand.Messages
use roammand.Messages.{
  AcquirePrivilegedLeaseRequest, PrivilegedBridgeClientFrame, PrivilegedBridgeServerFrame,
}
use roammand.Broker.Routing.{lease_response}
use roammand.Broker.Session.{HostBrokerSession, acquire, may_control}
use roammand.Broker.Core
use roammand.Lease.{LeaseId}
use roammand.Lease
use roammand.Route
use roammand.Rpc.{
  TransportError, disconnected, LocalBridgeTransport, FrameCodec, FramedBridgeRpc, new, call,
}
use roammand.Proxy.{ProxyError}
use roammand.Rpc.Answered.{IsOutcome, IsFinite, call_ends}
use roammand.Validation.Frames.{
  decode_and_validate_privileged_bridge_client_frame,
  decode_and_validate_privileged_bridge_server_frame, validate_privileged_bridge_frame_header,
  validate_privileged_bridge_client_payload, validate_generation, validate_permissions,
  validate_each_permission,
}
use roammand.Validation.Granted.{acquire-validated}
use roammand.Tests.Leases.{lease_id, leased, idle}
use roammand.Tests.Leases
use roammand.Tests.Routes.{controlled}
use roammand.Tests.Transcripts.{repeat}

abbrev held : Messages.LeaseRef
held = record { lease_id = repeat 9 16; generation = 7 }

abbrev request : PrivilegedBridgeClientFrame
request = record {
  protocol_version = some (record { major = 1; minor = 0 });
  request_id = b'r' ∷ [];
  sequence = 3;
  payload = some (Messages.close_peer held);
}

abbrev accepted : PrivilegedBridgeServerFrame
accepted = record {
  protocol_version = some (record { major = 1; minor = 0 });
  request_id = b'r' ∷ [];
  sequence = 3;
  payload = some (Messages.command_accepted held);
}

abbrev pointer : PrivilegedBridgeServerFrame
pointer = record {
  protocol_version = some (record { major = 1; minor = 0 });
  request_id = b'e' ∷ [];
  sequence = 1;
  payload = some (
      Messages.fast_pointer
        (record { lease_id = repeat 9 16; generation = 7; encoded_envelope = 1 ∷ [] }));
}

-- The state of the transport is the number of frames that it still has.
abbrev receive : ℕ → Call ℕ TransportError Bytes
receive zero = (0, err disconnected)
receive (suc n) = (n, ok (n ∷ []))

abbrev api : LocalBridgeTransport ℕ
api = record {
  send = λ n frame. (n, ok tt);
  receive = receive;
  try_receive = λ n. (n, ok none);
  fail_transport = λ n. 0;
}

-- The last frame is the response.
abbrev decode_server : Bytes → Option PrivilegedBridgeServerFrame
decode_server (zero ∷ []) = some accepted
decode_server (suc n ∷ []) = some pointer
decode_server _ = none

abbrev codec : FrameCodec
codec = record { encode_to_vec = λ frame. []; decode_server = decode_server }

finite : IsFinite api codec (λ n. n)
finite zero = inl (disconnected, refl)
finite (suc n) = inr (omega arith)

call_ends_example :
    (c : Call (FramedBridgeRpc ℕ) ProxyError PrivilegedBridgeServerFrame) × (call api codec 4
        (new 3)
        request
      ≡ some c)
    × IsOutcome api codec request c
unfolding new
call_ends_example = call_ends api codec (λ n. n) 4 (new 3) request finite (omega arith)

abbrev value : AcquirePrivilegedLeaseRequest
value = record {
  session_id = Leases.request.session_id;
  generation = 7;
  permissions = 1 ∷ 2 ∷ [];
  controller_display_name = Leases.request.controller_display_name;
}

abbrev asking : PrivilegedBridgeClientFrame
asking = record request { payload = some (Messages.acquire_lease value) }

abbrev session : HostBrokerSession ℕ
session = record (session_with 4) {
  broker = record {
    leases = idle;
    routes = record controlled { controlled_lease = false; input_enabled = false };
  };
}

abbrev granted : PrivilegedBridgeServerFrame
granted = lease_response asking leased (1 ∷ 2 ∷ [])

validated : decode_and_validate_privileged_bridge_client_frame (λ bytes. some asking) [] ≡ ok asking
unfolding decode_and_validate_privileged_bridge_client_frame validate_encoded_length
    validate_privileged_bridge_frame_header validate_protocol_version validate_utf8_length text_len
    validate_privileged_bridge_client_payload validate_length validate_generation
    validate_permissions validate_each_permission validate_nonzero_enum enum_of
    validate_nonempty_utf8_length
validated = refl

answered : (acquire accepting session asking value 1000 (some lease_id)).1 ≡ ok granted
unfolding acquire Core.acquire Lease.acquire text_len is_control bytes_eq Core.begin_control
    Route.begin_control may_control
answered = refl

acquire-validated_example :
    decode_and_validate_privileged_bridge_server_frame (λ bytes. some granted) [] ≡ ok granted
acquire-validated_example =
    acquire-validated accepting session asking value 1000 (some lease_id) granted
      (λ bytes. some asking) (λ bytes. some granted) [] [] (λ id e. ground arith) validated refl
      answered refl (omega arith)

-- ===== src/Helper/Frames.antt =====
-- The frames that the Helper makes (helper.rs).
use roammand.Base.{ℕ, some, ◌∷◌, Bytes, Text, length, not, ◌==◌, Result, ok, err, if◌then◌else◌}
use roammand.Messages.{
  IceCandidate, description_answer, PrivilegedBridgeClientFrame, ServerPayload, peer_answer,
  local_ice_candidate, peer_state_changed, reliable_input, fast_pointer, command_accepted,
  PrivilegedBridgeServerFrame,
}
use roammand.Broker.Routing.{ProxyRoute, response_frame}

pub data HelperProtocolError : Type 0 where
  invalid_message stale_route backend_failed sequence_overflow : HelperProtocolError

-- peer.rs of host-webrtc
pub record PeerAnswer : Type 0 where
  pub sdp : Text
  pub dtls_fingerprint_sha256 : Bytes

-- proxy.rs
pub data ProxyEvent : Type 0 where
  connected disconnected failed local_stop : ProxyEvent
  local_candidate : IceCandidate → ProxyEvent
  reliable fast : Bytes → ProxyEvent

unfoldable pub parse_route : Bytes → ℕ → Result HelperProtocolError ProxyRoute
parse_route lease_id generation =
    if not (length lease_id == 16)
    then err invalid_message
    else if generation == 0
    then err invalid_message
    else ok (record { lease_id = lease_id; generation = generation })

unfoldable pub accepted_response :
    PrivilegedBridgeClientFrame → ProxyRoute → PrivilegedBridgeServerFrame
unfolding response_frame
accepted_response request route =
    response_frame request
      (command_accepted (record { lease_id = route.lease_id; generation = route.generation }))

unfoldable pub answer_response :
    PrivilegedBridgeClientFrame → ProxyRoute → PeerAnswer → PrivilegedBridgeServerFrame
unfolding response_frame
answer_response request route answer = response_frame request (
    peer_answer (record {
      lease_id = route.lease_id;
      generation = route.generation;
      answer = some (record {
        kind = description_answer;
        sdp = answer.sdp;
        dtls_fingerprint_sha256 = answer.dtls_fingerprint_sha256;
      });
    }))

-- PrivilegedPeerState as i32
abbrev state_connected : ℕ
state_connected = 3

abbrev state_disconnected : ℕ
state_disconnected = 4

abbrev state_failed : ℕ
state_failed = 5

abbrev state_closed : ℕ
state_closed = 6

state_event : ProxyRoute → ℕ → ServerPayload
state_event route state =
    peer_state_changed
      (record { lease_id = route.lease_id; generation = route.generation; state = state })

unfoldable pub event_payload : ProxyRoute → ProxyEvent → ServerPayload
unfolding state_event
event_payload route connected = state_event route state_connected
event_payload route disconnected = state_event route state_disconnected
event_payload route failed = state_event route state_failed
event_payload route local_stop = state_event route state_closed
event_payload route (local_candidate candidate) = local_ice_candidate (record {
  lease_id = route.lease_id;
  generation = route.generation;
  candidate = some candidate;
})
event_payload route (reliable encoded) = reliable_input (record {
  lease_id = route.lease_id;
  generation = route.generation;
  encoded_envelope = encoded;
})
event_payload route (fast encoded) = fast_pointer (record {
  lease_id = route.lease_id;
  generation = route.generation;
  encoded_envelope = encoded;
})

-- `format!("event-{sequence}")`; how a u64 prints in decimal is the standard library's.
unfoldable pub event_frame : (ℕ → Text) → ProxyRoute → ℕ → ProxyEvent → PrivilegedBridgeServerFrame
unfolding event_payload
event_frame decimal route sequence event = record {
  protocol_version = some (record { major = 1; minor = 0 });
  request_id = b'e' ∷ b'v' ∷ b'e' ∷ b'n' ∷ b't' ∷ b'-' ∷ decimal sequence;
  sequence = sequence;
  payload = some (event_payload route event);
}

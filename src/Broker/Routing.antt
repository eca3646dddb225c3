-- ===== src/Broker/Routing.antt =====
-- The routes that frames name, and the responses that the broker itself makes (broker.rs).
use roammand.Base.{
  ℕ, ◌≡◌, ◌↔◌, Bool, true, ◌&&◌, not, Option, none, some, List, Bytes, bytes_eq, bytes_eq_iff, Text,
  length, ◌==◌, Result, ok, err, ok_or, ◌>>=◌, if◌then◌else◌, arith,
}
use roammand.Lease.{Lease, LeaseId}
use roammand.Messages.{
  ClientPayload, start_peer, restart_peer, add_ice_candidate, send_secure_attention, input_command,
  close_peer, PrivilegedBridgeClientFrame, ServerPayload, lease, peer_answer, local_ice_candidate,
  peer_state_changed, reliable_input, fast_pointer, command_accepted, PrivilegedBridgeServerFrame,
}

-- proxy.rs
pub record ProxyRoute : Type 0 where
  pub lease_id : LeaseId
  pub generation : ℕ

unfoldable pub route_eq : ProxyRoute → ProxyRoute → Bool
route_eq a b = bytes_eq a.lease_id b.lease_id && a.generation == b.generation

pub route_eq_iff : (a b : ProxyRoute) → (route_eq a b ≡ true) ↔ (a ≡ b)
unfolding route_eq
route_eq_iff a b = ground (arith, bytes_eq_iff a.lease_id b.lease_id)

pub data BrokerProtocolError : Type 0 where
  invalid_message lease_rejected permission_denied : BrokerProtocolError
  helper_failed stale_response : BrokerProtocolError

unfoldable pub parse_route : Bytes → ℕ → Result BrokerProtocolError ProxyRoute
parse_route lease_id generation =
    if not (length lease_id == 16)
    then err invalid_message
    else if generation == 0
    then err invalid_message
    else ok (record { lease_id = lease_id; generation = generation })

payload_route : ClientPayload → Result BrokerProtocolError ProxyRoute
unfolding parse_route
payload_route (start_peer value) = parse_route value.lease_id value.generation
payload_route (restart_peer value) = parse_route value.lease_id value.generation
payload_route (add_ice_candidate value) = parse_route value.lease_id value.generation
payload_route (send_secure_attention value) = parse_route value.lease_id value.generation
payload_route (input_command value) = parse_route value.lease_id value.generation
payload_route (close_peer value) = parse_route value.lease_id value.generation
payload_route _ = err invalid_message

unfoldable pub request_route : PrivilegedBridgeClientFrame → Result BrokerProtocolError ProxyRoute
unfolding payload_route
request_route request = do payload ← ok_or request.payload invalid_message; payload_route payload

answer_route : ServerPayload → Result BrokerProtocolError ProxyRoute
unfolding parse_route
answer_route (command_accepted value) = parse_route value.lease_id value.generation
answer_route (peer_answer value) = parse_route value.lease_id value.generation
answer_route (local_ice_candidate value) = parse_route value.lease_id value.generation
answer_route (peer_state_changed value) = parse_route value.lease_id value.generation
answer_route (reliable_input value) = parse_route value.lease_id value.generation
answer_route (fast_pointer value) = parse_route value.lease_id value.generation
answer_route _ = err invalid_message

unfoldable pub response_route : PrivilegedBridgeServerFrame → Result BrokerProtocolError ProxyRoute
unfolding answer_route
response_route response = do payload ← ok_or response.payload invalid_message; answer_route payload

name_of : ClientPayload → Option Text
name_of (start_peer value) = some value.controller_display_name
name_of (restart_peer value) = some value.controller_display_name
name_of _ = none

unfoldable pub request_controller_display_name : PrivilegedBridgeClientFrame → Option Text
unfolding name_of
request_controller_display_name request = elim request.payload [
  | none ↦ none
  | some payload ↦ name_of payload
]

unfoldable pub response_frame :
    PrivilegedBridgeClientFrame → ServerPayload → PrivilegedBridgeServerFrame
response_frame request payload = record {
  protocol_version = some (record { major = 1; minor = 0 });
  request_id = request.request_id;
  sequence = request.sequence;
  payload = some payload;
}

unfoldable pub lease_response :
    PrivilegedBridgeClientFrame → Lease → List ℕ → PrivilegedBridgeServerFrame
unfolding response_frame
lease_response request held permissions = response_frame request (
    lease (record {
      lease_id = held.id;
      generation = held.generation;
      issued_at_unix_ms = held.issued_at_ms;
      expires_at_unix_ms = held.expires_at_ms;
      session_id = held.session_id;
      permissions = permissions;
      controller_display_name = held.controller_display_name;
    }))

-- ===== src/Validation/Frames.antt =====
-- gen/rust/src/validation.rs: the frames of the privileged bridge. Decoding by prost is a parameter.
use roammand.Base.{
  ℕ, not, Option, List, [], ◌∷◌, Bytes, Text, any, length, is_empty, ltb, leb, ◌==◌, Result, ok,
  err, ◌>>=◌, ◌>>◌, ok_or, if◌then◌else◌, ◌||◌,
}
use roammand.Messages
use roammand.Messages.{
  ProtocolVersion, WebRtcSessionDescription, IceCandidate, PrivilegedIceServer,
  PrivilegedPeerConfiguration, PrivilegedLease, StartPrivilegedPeerRequest,
  AddPrivilegedIceCandidateRequest, PrivilegedInput, pointer_button, keyboard, text, pointer_move,
  pointer_scroll, release_all, PrivilegedInputCommand, ClientPayload, ServerPayload,
  PrivilegedBridgeClientFrame, PrivilegedBridgeServerFrame,
}
use roammand.Validation.{
  ValidationError, missing_payload, invalid_length, invalid_state, invalid_lifetime,
  duplicate_value, enum_of, validate_length, validate_utf8_length, validate_nonempty_utf8_length,
  validate_encoded_length, validate_nonzero_enum, validate_protocol_version,
  max_device_name_utf8_bytes,
}
use roammand.Validation.Statuses.{
  session_id_bytes, max_error_detail_utf8_bytes, max_request_id_utf8_bytes, validate_unified_error,
  validate_session, validate_privileged_bridge_status_snapshot,
}

abbrev pub max_privileged_bridge_frame_bytes : ℕ
max_privileged_bridge_frame_bytes = 262144

abbrev pub max_reliable_input_envelope_bytes : ℕ
max_reliable_input_envelope_bytes = 16384

abbrev pub max_pointer_fast_envelope_bytes : ℕ
max_pointer_fast_envelope_bytes = 256

unfoldable pub validate_generation : ℕ → Result ValidationError (Unit {0})
validate_generation generation = if generation == 0 then err invalid_state else ok tt

unfoldable pub validate_privileged_lease_ref : Bytes → ℕ → Result ValidationError (Unit {0})
validate_privileged_lease_ref lease_id generation = do
  validate_length lease_id 16
  validate_generation generation

-- The loop over the permissions, with those seen so far.
unfoldable pub validate_each_permission : List ℕ → List ℕ → Result ValidationError (Unit {0})
validate_each_permission seen [] = ok tt
validate_each_permission seen (value ∷ values) = do
  validate_nonzero_enum (enum_of 2 value)
  if any (λ v. v == value) seen then err duplicate_value else ok tt
  validate_each_permission (value ∷ seen) values

unfoldable pub validate_permissions : List ℕ → Result ValidationError (Unit {0})
validate_permissions permissions = validate_each_permission [] permissions

unfoldable pub validate_privileged_lease : PrivilegedLease → Result ValidationError (Unit {0})
validate_privileged_lease value = do
  validate_privileged_lease_ref value.lease_id value.generation
  validate_length value.session_id session_id_bytes
  validate_permissions value.permissions
  validate_nonempty_utf8_length value.controller_display_name max_device_name_utf8_bytes
  if leb value.expires_at_unix_ms value.issued_at_unix_ms then err invalid_lifetime else ok tt

unfoldable pub validate_urls : List Text → Result ValidationError (Unit {0})
validate_urls [] = ok tt
validate_urls (url ∷ urls) = do validate_nonempty_utf8_length url 2048; validate_urls urls

unfoldable pub validate_ice_servers : List PrivilegedIceServer → Result ValidationError (Unit {0})
validate_ice_servers [] = ok tt
validate_ice_servers (server ∷ servers) = do
  if is_empty server.urls || ltb 16 (length server.urls) then err invalid_length else ok tt
  validate_urls server.urls
  validate_utf8_length server.username max_error_detail_utf8_bytes
  validate_utf8_length server.credential max_error_detail_utf8_bytes
  validate_ice_servers servers

unfoldable pub validate_privileged_peer_configuration :
    PrivilegedPeerConfiguration → Result ValidationError (Unit {0})
validate_privileged_peer_configuration configuration = do
  validate_nonzero_enum (enum_of 2 configuration.ice_transport_policy)
  if ltb 8 (length configuration.ice_servers) then err invalid_length else ok tt
  validate_ice_servers configuration.ice_servers

-- The expected type as i32: an offer is 1 and an answer is 2.
unfoldable pub validate_session_description :
    WebRtcSessionDescription → ℕ → Result ValidationError (Unit {0})
validate_session_description description expected_type = do
  if not (description.kind == expected_type) then err invalid_state else ok tt
  validate_nonempty_utf8_length description.sdp 131072
  validate_length description.dtls_fingerprint_sha256 32

unfoldable pub validate_ice_candidate : IceCandidate → Result ValidationError (Unit {0})
validate_ice_candidate candidate = do
  validate_nonempty_utf8_length candidate.candidate 4096
  validate_utf8_length candidate.sdp_mid 64

unfoldable pub validate_privileged_peer_request :
    StartPrivilegedPeerRequest → Result ValidationError (Unit {0})
validate_privileged_peer_request value = do
  validate_privileged_lease_ref value.lease_id value.generation
  configuration ← ok_or value.configuration missing_payload
  validate_privileged_peer_configuration configuration
  validate_nonempty_utf8_length value.controller_display_name max_device_name_utf8_bytes
  offer ← ok_or value.offer missing_payload
  validate_session_description offer 1

unfoldable pub validate_input : PrivilegedInput → Result ValidationError (Unit {0})
validate_input (pointer_button button action x y) = do
  validate_nonzero_enum (enum_of 3 button)
  validate_nonzero_enum (enum_of 4 action)
validate_input (keyboard action usb_hid_usage modifier_bits) =
    validate_nonzero_enum (enum_of 2 action)
validate_input (text value) = validate_utf8_length value 4096
validate_input (pointer_move x y pressed_button_bits) = ok tt
validate_input (pointer_scroll delta_x delta_y) = ok tt
validate_input release_all = ok tt

unfoldable pub validate_privileged_input_command :
    PrivilegedInputCommand → Result ValidationError (Unit {0})
validate_privileged_input_command command = do
  validate_privileged_lease_ref command.lease_id command.generation
  input ← ok_or command.input missing_payload
  validate_input input

unfoldable pub validate_candidate :
    AddPrivilegedIceCandidateRequest → Result ValidationError (Unit {0})
validate_candidate value = do
  validate_privileged_lease_ref value.lease_id value.generation
  candidate ← ok_or value.candidate missing_payload
  validate_ice_candidate candidate

unfoldable pub validate_privileged_bridge_client_payload :
    ClientPayload → Result ValidationError (Unit {0})
validate_privileged_bridge_client_payload (Messages.authenticate value) = do
  validate_nonzero_enum (enum_of 2 value.role)
  validate_length value.client_nonce 32
  validate_length value.client_proof 32
  validate_length value.executable_sha256 32
  if value.os_session_id == 0 then err invalid_state else ok tt
validate_privileged_bridge_client_payload (Messages.register_helper value) =
    validate_session value.session
validate_privileged_bridge_client_payload (Messages.acquire_lease value) = do
  validate_length value.session_id session_id_bytes
  validate_generation value.generation
  validate_permissions value.permissions
  validate_nonempty_utf8_length value.controller_display_name max_device_name_utf8_bytes
validate_privileged_bridge_client_payload (Messages.renew_lease value) =
    validate_privileged_lease_ref value.lease_id value.generation
validate_privileged_bridge_client_payload (Messages.release_lease value) =
    validate_privileged_lease_ref value.lease_id value.generation
validate_privileged_bridge_client_payload (Messages.start_peer value) =
    validate_privileged_peer_request value
validate_privileged_bridge_client_payload (Messages.restart_peer value) =
    validate_privileged_peer_request value
validate_privileged_bridge_client_payload (Messages.add_ice_candidate value) =
    validate_candidate value
validate_privileged_bridge_client_payload (Messages.send_secure_attention value) =
    validate_privileged_lease_ref value.lease_id value.generation
validate_privileged_bridge_client_payload (Messages.input_command value) =
    validate_privileged_input_command value
validate_privileged_bridge_client_payload (Messages.close_peer value) =
    validate_privileged_lease_ref value.lease_id value.generation

-- An encoded envelope that is not empty.
unfoldable pub validate_envelope : Bytes → ℕ → Result ValidationError (Unit {0})
validate_envelope encoded maximum = do
  validate_encoded_length encoded maximum
  if is_empty encoded then err invalid_length else ok tt

unfoldable pub validate_privileged_bridge_server_payload :
    ServerPayload → Result ValidationError (Unit {0})
validate_privileged_bridge_server_payload (Messages.challenge value) = do
  validate_length value.broker_instance_id 16
  validate_length value.server_nonce 32
validate_privileged_bridge_server_payload (Messages.authenticated server_proof) =
    validate_length server_proof 32
validate_privileged_bridge_server_payload (Messages.helper_registered value) =
    validate_session value.session
validate_privileged_bridge_server_payload (Messages.status value) =
    validate_privileged_bridge_status_snapshot value
validate_privileged_bridge_server_payload (Messages.lease value) = validate_privileged_lease value
validate_privileged_bridge_server_payload (Messages.peer_answer value) = do
  validate_privileged_lease_ref value.lease_id value.generation
  answer ← ok_or value.answer missing_payload
  validate_session_description answer 2
validate_privileged_bridge_server_payload (Messages.local_ice_candidate value) =
    validate_candidate value
validate_privileged_bridge_server_payload (Messages.peer_state_changed value) = do
  validate_privileged_lease_ref value.lease_id value.generation
  validate_nonzero_enum (enum_of 6 value.state)
validate_privileged_bridge_server_payload (Messages.reliable_input value) = do
  validate_privileged_lease_ref value.lease_id value.generation
  validate_envelope value.encoded_envelope max_reliable_input_envelope_bytes
validate_privileged_bridge_server_payload (Messages.fast_pointer value) = do
  validate_privileged_lease_ref value.lease_id value.generation
  validate_envelope value.encoded_envelope max_pointer_fast_envelope_bytes
validate_privileged_bridge_server_payload (Messages.command_accepted value) =
    validate_privileged_lease_ref value.lease_id value.generation
validate_privileged_bridge_server_payload (Messages.error value) = validate_unified_error value

unfoldable pub validate_privileged_bridge_frame_header :
    Option ProtocolVersion → Text → ℕ → Result ValidationError (Unit {0})
validate_privileged_bridge_frame_header version request_id sequence = do
  validate_protocol_version version
  validate_utf8_length request_id max_request_id_utf8_bytes
  if sequence == 0 then err invalid_state else ok tt

unfoldable pub decode_and_validate_privileged_bridge_client_frame :
    (Bytes → Option PrivilegedBridgeClientFrame)
    → Bytes
    → Result ValidationError PrivilegedBridgeClientFrame
decode_and_validate_privileged_bridge_client_frame decode encoded = do
  validate_encoded_length encoded max_privileged_bridge_frame_bytes
  frame ← ok_or (decode encoded) invalid_length
  validate_privileged_bridge_frame_header frame.protocol_version frame.request_id frame.sequence
  payload ← ok_or frame.payload missing_payload
  validate_privileged_bridge_client_payload payload
  ok frame

unfoldable pub decode_and_validate_privileged_bridge_server_frame :
    (Bytes → Option PrivilegedBridgeServerFrame)
    → Bytes
    → Result ValidationError PrivilegedBridgeServerFrame
decode_and_validate_privileged_bridge_server_frame decode encoded = do
  validate_encoded_length encoded max_privileged_bridge_frame_bytes
  frame ← ok_or (decode encoded) invalid_length
  validate_privileged_bridge_frame_header frame.protocol_version frame.request_id frame.sequence
  payload ← ok_or frame.payload missing_payload
  validate_privileged_bridge_server_payload payload
  ok frame

-- ===== src/Messages.antt =====
-- gen/rust/src/generated/roammand.v1.rs: the frames of the privileged bridge, as the broker and the
-- Helper exchange them. An i32 field is kept as its 32-bit pattern, a String as its characters.
use roammand.Base.{ℕ, Bool, Option, List, Bytes, Text}

pub record ProtocolVersion : Type 0 where
  pub major : ℕ
  pub minor : ℕ

-- SessionPermission::ControlInput as i32
abbrev pub control_input : ℕ
control_input = 2

-- SessionDescriptionType::Answer as i32
abbrev pub description_answer : ℕ
description_answer = 2

pub record WebRtcSessionDescription : Type 0 where
  pub kind : ℕ
  pub sdp : Text
  pub dtls_fingerprint_sha256 : Bytes

pub record IceCandidate : Type 0 where
  pub candidate : Text
  pub sdp_mid : Text
  pub sdp_m_line_index : ℕ

pub record PrivilegedIceServer : Type 0 where
  pub urls : List Text
  pub username : Text
  pub credential : Text

pub record PrivilegedPeerConfiguration : Type 0 where
  pub ice_transport_policy : ℕ
  pub ice_servers : List PrivilegedIceServer

pub record PrivilegedLease : Type 0 where
  pub lease_id : Bytes
  pub generation : ℕ
  pub issued_at_unix_ms : ℕ
  pub expires_at_unix_ms : ℕ
  pub session_id : Bytes
  pub permissions : List ℕ
  pub controller_display_name : Text

pub record AcquirePrivilegedLeaseRequest : Type 0 where
  pub session_id : Bytes
  pub generation : ℕ
  pub permissions : List ℕ
  pub controller_display_name : Text

-- `RenewPrivilegedLeaseRequest`, `ReleasePrivilegedLeaseRequest`, `ClosePrivilegedPeerRequest`,
-- `SendSecureAttentionRequest` and `PrivilegedCommandAccepted` all have these two fields.
pub record LeaseRef : Type 0 where
  pub lease_id : Bytes
  pub generation : ℕ

-- `StartPrivilegedPeerRequest`, and `RestartPrivilegedPeerRequest` with the same fields.
pub record StartPrivilegedPeerRequest : Type 0 where
  pub lease_id : Bytes
  pub generation : ℕ
  pub configuration : Option PrivilegedPeerConfiguration
  pub offer : Option WebRtcSessionDescription
  pub controller_display_name : Text

-- `AddPrivilegedIceCandidateRequest`, and `PrivilegedLocalIceCandidate` with the same fields.
pub record AddPrivilegedIceCandidateRequest : Type 0 where
  pub lease_id : Bytes
  pub generation : ℕ
  pub candidate : Option IceCandidate

-- `PrivilegedReliableInputEvent`, and `PrivilegedFastPointerEvent` with the same fields.
pub record PrivilegedReliableInputEvent : Type 0 where
  pub lease_id : Bytes
  pub generation : ℕ
  pub encoded_envelope : Bytes

-- privileged_input_command::Input, with the fields of its messages in their order.
pub data PrivilegedInput : Type 0 where
  pointer_button : (button action x y : ℕ) → PrivilegedInput
  keyboard : (action usb_hid_usage modifier_bits : ℕ) → PrivilegedInput
  text : Text → PrivilegedInput
  pointer_move : (x y pressed_button_bits : ℕ) → PrivilegedInput
  pointer_scroll : (delta_x delta_y : ℕ) → PrivilegedInput
  release_all : PrivilegedInput

pub record PrivilegedInputCommand : Type 0 where
  pub lease_id : Bytes
  pub generation : ℕ
  pub input : Option PrivilegedInput

pub record PrivilegedSessionDescriptor : Type 0 where
  pub platform : ℕ
  pub os_session_id : ℕ
  pub desktop_kind : ℕ
  pub generation : ℕ

pub record PrivilegedBridgeAuthenticate : Type 0 where
  pub role : ℕ
  pub client_nonce : Bytes
  pub client_proof : Bytes
  pub executable_sha256 : Bytes
  pub os_session_id : ℕ

pub record PrivilegedBridgeChallenge : Type 0 where
  pub broker_instance_id : Bytes
  pub server_nonce : Bytes

-- `RegisterPrivilegedHelperRequest`, and `PrivilegedHelperRegistered` with the same field.
pub record RegisterPrivilegedHelperRequest : Type 0 where
  pub session : Option PrivilegedSessionDescriptor

-- unified_error::Details, with the field of each message.
pub data ErrorDetails : Type 0 where
  retry_after : ℕ → ErrorDetails
  permission : Text → ErrorDetails
  codec : List Text → ErrorDetails
  transport : Text → ErrorDetails

pub record UnifiedError : Type 0 where
  pub code : ℕ
  pub message_key : Text
  pub retryable : Bool
  pub request_id : Text
  pub details : Option ErrorDetails

pub record PrivilegedBridgeStatusSnapshot : Type 0 where
  pub state : ℕ
  pub interactive_session : Option PrivilegedSessionDescriptor
  pub helper_connected : Bool
  pub active_controller_display_name : Text
  pub error : Option UnifiedError

pub record SessionStatus : Type 0 where
  pub session_id : Bytes
  pub state : ℕ
  pub error : Option UnifiedError

pub record RemoteSessionStatusSnapshot : Type 0 where
  pub session_status : Option SessionStatus
  pub controller_device_id : Bytes

pub record PrivilegedPeerStateChanged : Type 0 where
  pub lease_id : Bytes
  pub generation : ℕ
  pub state : ℕ

pub record PrivilegedPeerAnswer : Type 0 where
  pub lease_id : Bytes
  pub generation : ℕ
  pub answer : Option WebRtcSessionDescription

-- privileged_bridge_client_frame::Payload
pub data ClientPayload : Type 0 where
  authenticate : PrivilegedBridgeAuthenticate → ClientPayload
  register_helper : RegisterPrivilegedHelperRequest → ClientPayload
  acquire_lease : AcquirePrivilegedLeaseRequest → ClientPayload
  renew_lease release_lease : LeaseRef → ClientPayload
  start_peer restart_peer : StartPrivilegedPeerRequest → ClientPayload
  add_ice_candidate : AddPrivilegedIceCandidateRequest → ClientPayload
  send_secure_attention : LeaseRef → ClientPayload
  input_command : PrivilegedInputCommand → ClientPayload
  close_peer : LeaseRef → ClientPayload

pub record PrivilegedBridgeClientFrame : Type 0 where
  pub protocol_version : Option ProtocolVersion
  pub request_id : Text
  pub sequence : ℕ
  pub payload : Option ClientPayload

-- privileged_bridge_server_frame::Payload
pub data ServerPayload : Type 0 where
  challenge : PrivilegedBridgeChallenge → ServerPayload
  authenticated : (server_proof : Bytes) → ServerPayload
  helper_registered : RegisterPrivilegedHelperRequest → ServerPayload
  status : PrivilegedBridgeStatusSnapshot → ServerPayload
  lease : PrivilegedLease → ServerPayload
  peer_answer : PrivilegedPeerAnswer → ServerPayload
  local_ice_candidate : AddPrivilegedIceCandidateRequest → ServerPayload
  peer_state_changed : PrivilegedPeerStateChanged → ServerPayload
  reliable_input fast_pointer : PrivilegedReliableInputEvent → ServerPayload
  command_accepted : LeaseRef → ServerPayload
  error : UnifiedError → ServerPayload

pub record PrivilegedBridgeServerFrame : Type 0 where
  pub protocol_version : Option ProtocolVersion
  pub request_id : Text
  pub sequence : ℕ
  pub payload : Option ServerPayload

-- ===== src/Peer/Types.antt =====
-- The data of host-webrtc: lib.rs, config.rs, peer.rs, the input events of roammand.v1.rs, and the
-- two trait objects of a session, each a state with its operations.
use roammand.Base.{ℕ, Bool, true, false, Option, none, some, Bytes, Text, ◌==◌, Call, if◌then◌else◌}

pub data HostWebRtcError : Type 0 where
  invalid_session invalid_permissions invalid_state invalid_sdp invalid_answer : HostWebRtcError
  peer_failure input_failure input_permission_denied invalid_input_envelope : HostWebRtcError
  session_mismatch reliable_sequence invalid_coordinates invalid_keyboard_usage : HostWebRtcError
  invalid_modifier_bits invalid_pointer_buttons invalid_scroll_delta : HostWebRtcError
  pressed_input_state device_busy invalid_lease : HostWebRtcError

-- HostWebRtcError::InputFailure, by the derived `PartialEq`
abbrev pub is_input_failure : HostWebRtcError → Bool
is_input_failure input_failure = true
is_input_failure _ = false

pub data IceTransportPolicy : Type 0 where
  all relay : IceTransportPolicy

pub record SessionConfig : Type 0 where
  pub ice_transport_policy : IceTransportPolicy

pub record PeerIceCandidate : Type 0 where
  pub candidate : Text
  pub sdp_mid : Text
  pub sdp_m_line_index : ℕ

pub record PeerAnswer : Type 0 where
  pub sdp : Text
  pub dtls_fingerprint_sha256 : Bytes

pub data SessionPermission : Type 0 where
  unspecified view_screen control_input : SessionPermission

-- An i32 by sign: `negsuc n` is -(n + 1).
pub data ℤ : Type 0 where
  pos : ℕ → ℤ
  negsuc : ℕ → ℤ

pub data KeyboardAction : Type 0 where
  unspecified down up : KeyboardAction

pub data ButtonAction : Type 0 where
  unspecified down up click double_click : ButtonAction

pub data PointerButton : Type 0 where
  unspecified left right middle : PointerButton

pub data SessionControlAction : Type 0 where
  unspecified close emergency_stop : SessionControlAction

-- The generated `try_from` of the enumerations.
unfoldable pub keyboard_action : ℤ → Option KeyboardAction
keyboard_action (negsuc n) = none
keyboard_action (pos n) =
    if n == 0
    then some KeyboardAction.unspecified
    else if n == 1
    then some KeyboardAction.down
    else if n == 2
    then some KeyboardAction.up
    else none

unfoldable pub button_action : ℤ → Option ButtonAction
button_action (negsuc n) = none
button_action (pos n) =
    if n == 0
    then some ButtonAction.unspecified
    else if n == 1
    then some ButtonAction.down
    else if n == 2
    then some ButtonAction.up
    else if n == 3
    then some click
    else if n == 4
    then some double_click
    else none

unfoldable pub pointer_button : ℤ → Option PointerButton
pointer_button (negsuc n) = none
pointer_button (pos n) =
    if n == 0
    then some PointerButton.unspecified
    else if n == 1
    then some left
    else if n == 2
    then some right
    else if n == 3
    then some middle
    else none

unfoldable pub session_control_action : ℤ → Option SessionControlAction
session_control_action (negsuc n) = none
session_control_action (pos n) =
    if n == 0
    then some SessionControlAction.unspecified
    else if n == 1
    then some close
    else if n == 2
    then some emergency_stop
    else none

-- reliable_input_envelope::Event, with the fields of its messages in their order.
pub data ReliableEvent : Type 0 where
  on_pointer_button : (button action x y : ℤ) → ReliableEvent
  on_keyboard : (action : ℤ) (usb_hid_usage modifier_bits : ℕ) → ReliableEvent
  on_text : Text → ReliableEvent
  on_session_control : (action : ℤ) → ReliableEvent
  on_release_all_input : ReliableEvent

pub record ReliableInputEnvelope : Type 0 where
  pub session_id : Bytes
  pub sequence : ℕ
  pub event : Option ReliableEvent

-- pointer_fast_envelope::Event
pub data PointerEvent : Type 0 where
  on_move : (x y : ℤ) (pressed_button_bits : ℕ) → PointerEvent
  on_scroll : (delta_x delta_y : ℤ) → PointerEvent

pub record PointerFastEnvelope : Type 0 where
  pub session_id : Bytes
  pub sequence : ℕ
  pub event : Option PointerEvent

pub record PeerBackend (P : Type 0) : Type 0 where
  pub start : P → SessionConfig → Text → Call P HostWebRtcError PeerAnswer
  pub restart : P → SessionConfig → Text → Call P HostWebRtcError PeerAnswer
  pub add_remote_ice_candidate : P → PeerIceCandidate → Call P HostWebRtcError (Unit {0})
  pub close : P → Call P HostWebRtcError (Unit {0})

pub record RemoteInputSink (I : Type 0) : Type 0 where
  pub keyboard : I → KeyboardAction → ℕ → ℕ → Call I HostWebRtcError (Unit {0})
  pub pointer_button : I → PointerButton → ButtonAction → ℤ → ℤ → Call I HostWebRtcError (Unit {0})
  pub pointer_move : I → ℤ → ℤ → ℕ → Call I HostWebRtcError (Unit {0})
  pub pointer_scroll : I → ℤ → ℤ → Call I HostWebRtcError (Unit {0})
  pub text : I → Text → Call I HostWebRtcError (Unit {0})
  pub release_all : I → Call I HostWebRtcError (Unit {0})

-- ===== src/Validation/Statuses.antt =====
-- gen/rust/src/validation.rs: errors, sessions of an operating system, and the statuses.
use roammand.Base.{
  ℕ, not, ◌||◌, Option, none, some, List, [], ◌∷◌, Text, length, is_empty, is_some, leb, ◌==◌,
  Result, ok, err, ◌>>=◌, ◌>>◌, ok_or, if◌then◌else◌,
}
use roammand.Messages.{
  PrivilegedSessionDescriptor, ErrorDetails, retry_after, permission, codec, transport,
  UnifiedError, PrivilegedBridgeStatusSnapshot, SessionStatus, RemoteSessionStatusSnapshot,
}
use roammand.Validation.{
  ValidationError, missing_payload, invalid_length, invalid_enum, invalid_state, enum_of,
  validate_length, validate_utf8_length, validate_nonzero_enum, max_device_name_utf8_bytes,
  device_id_bytes,
}

abbrev pub max_error_detail_utf8_bytes : ℕ
max_error_detail_utf8_bytes = 256

abbrev pub max_message_key_utf8_bytes : ℕ
max_message_key_utf8_bytes = 128

abbrev pub max_request_id_utf8_bytes : ℕ
max_request_id_utf8_bytes = 64

abbrev pub session_id_bytes : ℕ
session_id_bytes = 16

unfoldable pub validate_codecs : List Text → Result ValidationError (Unit {0})
validate_codecs [] = ok tt
validate_codecs (value ∷ values) = do
  validate_utf8_length value max_error_detail_utf8_bytes
  validate_codecs values

unfoldable pub validate_details : Option ErrorDetails → Result ValidationError (Unit {0})
validate_details none = ok tt
validate_details (some (retry_after value)) = ok tt
validate_details (some (permission value)) = validate_utf8_length value max_error_detail_utf8_bytes
validate_details (some (codec values)) = validate_codecs values
validate_details (some (transport value)) = validate_utf8_length value max_error_detail_utf8_bytes

unfoldable pub validate_unified_error : UnifiedError → Result ValidationError (Unit {0})
validate_unified_error error = do
  validate_nonzero_enum (enum_of 25 error.code)
  validate_utf8_length error.message_key max_message_key_utf8_bytes
  validate_utf8_length error.request_id max_request_id_utf8_bytes
  validate_details error.details

unfoldable pub validate_privileged_session_descriptor :
    PrivilegedSessionDescriptor → Result ValidationError (Unit {0})
validate_privileged_session_descriptor descriptor = do
  platform ← ok_or (enum_of 4 descriptor.platform) invalid_enum
  if not (platform == 3 || platform == 4) then err invalid_enum else ok tt
  validate_nonzero_enum (enum_of 4 descriptor.desktop_kind)
  if descriptor.os_session_id == 0 || descriptor.generation == 0 then err invalid_state else ok tt

-- `.as_ref().ok_or(ValidationError::MissingPayload)?`
unfoldable pub validate_session :
    Option PrivilegedSessionDescriptor → Result ValidationError (Unit {0})
validate_session session = do
  descriptor ← ok_or session missing_payload
  validate_privileged_session_descriptor descriptor

unfoldable pub validate_optional_session :
    Option PrivilegedSessionDescriptor → Result ValidationError (Unit {0})
validate_optional_session none = ok tt
validate_optional_session (some session) = validate_privileged_session_descriptor session

-- The cases of the `match` on the state of the bridge.
unfoldable pub validate_without_session :
    PrivilegedBridgeStatusSnapshot → Result ValidationError (Unit {0})
validate_without_session snapshot =
    if is_some snapshot.interactive_session
      || snapshot.helper_connected
      || not (is_empty snapshot.active_controller_display_name)
      || is_some snapshot.error
    then err invalid_state
    else ok tt

unfoldable pub validate_ready : PrivilegedBridgeStatusSnapshot → Result ValidationError (Unit {0})
validate_ready snapshot = do
  validate_session snapshot.interactive_session
  if not snapshot.helper_connected
        || not (is_empty snapshot.active_controller_display_name)
        || is_some snapshot.error
      then err invalid_state
      else ok tt

unfoldable pub validate_transitioning :
    PrivilegedBridgeStatusSnapshot → Result ValidationError (Unit {0})
validate_transitioning snapshot = do
  validate_optional_session snapshot.interactive_session
  if is_some snapshot.error then err invalid_state else ok tt

unfoldable pub validate_controlled :
    PrivilegedBridgeStatusSnapshot → Result ValidationError (Unit {0})
validate_controlled snapshot = do
  validate_session snapshot.interactive_session
  if not snapshot.helper_connected
        || is_empty snapshot.active_controller_display_name
        || is_some snapshot.error
      then err invalid_state
      else ok tt

unfoldable pub validate_failed : PrivilegedBridgeStatusSnapshot → Result ValidationError (Unit {0})
validate_failed snapshot = do
  if snapshot.helper_connected || not (is_empty snapshot.active_controller_display_name)
      then err invalid_state
      else ok tt
  error ← ok_or snapshot.error missing_payload
  validate_unified_error error

-- By its number: up to 4 there is no session, 5 is Ready and 8 is Failed.
unfoldable pub validate_bridge_state :
    PrivilegedBridgeStatusSnapshot → ℕ → Result ValidationError (Unit {0})
validate_bridge_state snapshot state =
    if leb state 4
    then validate_without_session snapshot
    else if state == 5
    then validate_ready snapshot
    else if state == 6
    then validate_transitioning snapshot
    else if state == 7
    then validate_controlled snapshot
    else validate_failed snapshot

unfoldable pub validate_privileged_bridge_status_snapshot :
    PrivilegedBridgeStatusSnapshot → Result ValidationError (Unit {0})
validate_privileged_bridge_status_snapshot snapshot = do
  state ← ok_or (enum_of 8 snapshot.state) invalid_enum
  if state == 0 then err invalid_enum else ok tt
  validate_utf8_length snapshot.active_controller_display_name max_device_name_utf8_bytes
  validate_bridge_state snapshot state

unfoldable pub validate_failed_session : SessionStatus → Result ValidationError (Unit {0})
validate_failed_session status = do
  validate_length status.session_id session_id_bytes
  error ← ok_or status.error invalid_state
  validate_unified_error error

unfoldable pub validate_active_session : SessionStatus → Result ValidationError (Unit {0})
validate_active_session status = do
  validate_length status.session_id session_id_bytes
  if is_some status.error then err invalid_state else ok tt

-- SessionState as i32: Idle is 1 and Failed is 7.
unfoldable pub validate_session_state : SessionStatus → ℕ → Result ValidationError (Unit {0})
validate_session_state status state =
    if state == 1
    then if not (is_empty status.session_id) || is_some status.error
      then err invalid_state
      else ok tt
    else if state == 7
    then validate_failed_session status
    else validate_active_session status

unfoldable pub validate_session_status : SessionStatus → Result ValidationError (Unit {0})
validate_session_status status = do
  if not (is_empty status.session_id || length status.session_id == session_id_bytes)
      then err invalid_length
      else ok tt
  state ← ok_or (enum_of 8 status.state) invalid_enum
  if state == 0 then err invalid_enum else ok tt
  validate_session_state status state

unfoldable pub validate_remote_session_status_snapshot :
    RemoteSessionStatusSnapshot → Result ValidationError (Unit {0})
validate_remote_session_status_snapshot snapshot = do
  status ← ok_or snapshot.session_status missing_payload
  validate_session_status status
  state ← ok_or (enum_of 8 status.state) invalid_enum
  if state == 1
      then if is_empty snapshot.controller_device_id then ok tt else err invalid_state
      else validate_length snapshot.controller_device_id device_id_bytes

-- ===== src/Validation.antt =====
-- gen/rust/src/validation.rs: the checks on a message of the protocol. An i32 field is its 32-bit
-- pattern, so that a negative number is above every value of an enum.
pub mod Statuses
pub mod Frames
pub mod Granted
use roammand.Base.{
  ℕ, not, Option, none, some, Bytes, Text, length, is_empty, ltb, leb, ◌==◌, Result, ok, err, ◌>>◌,
  if◌then◌else◌, text_len,
}
use roammand.Messages.{ProtocolVersion}

abbrev pub device_id_bytes : ℕ
device_id_bytes = 32

abbrev pub public_key_bytes : ℕ
public_key_bytes = 32

abbrev pub max_device_name_utf8_bytes : ℕ
max_device_name_utf8_bytes = 128

pub data ValidationError : Type 0 where
  message_too_large invalid_protocol_version missing_payload invalid_length : ValidationError
  invalid_enum invalid_state invalid_utf8_length invalid_lifetime duplicate_value : ValidationError

pub record DeviceIdentity : Type 0 where
  pub device_id : Bytes
  pub public_key_algorithm : ℕ
  pub public_key : Bytes
  pub display_name : Text
  pub platform : ℕ

-- `try_from` of an enum whose values are 0 to the given one
unfoldable pub enum_of : ℕ → ℕ → Option ℕ
enum_of last value = if leb value last then some value else none

unfoldable pub validate_length : Bytes → ℕ → Result ValidationError (Unit {0})
validate_length value expected =
    if not (length value == expected) then err invalid_length else ok tt

unfoldable pub validate_utf8_length : Text → ℕ → Result ValidationError (Unit {0})
validate_utf8_length value maximum =
    if ltb maximum (text_len value) then err invalid_utf8_length else ok tt

unfoldable pub validate_nonempty_utf8_length : Text → ℕ → Result ValidationError (Unit {0})
validate_nonempty_utf8_length value maximum =
    if is_empty value then err invalid_length else validate_utf8_length value maximum

unfoldable pub validate_encoded_length : Bytes → ℕ → Result ValidationError (Unit {0})
validate_encoded_length encoded maximum =
    if ltb maximum (length encoded) then err message_too_large else ok tt

unfoldable pub validate_nonzero_enum : Option ℕ → Result ValidationError (Unit {0})
validate_nonzero_enum none = err invalid_enum
validate_nonzero_enum (some value) = if value == 0 then err invalid_enum else ok tt

unfoldable pub validate_device_identity : DeviceIdentity → Result ValidationError (Unit {0})
validate_device_identity identity = do
  validate_length identity.device_id device_id_bytes
  validate_length identity.public_key public_key_bytes
  if not (identity.public_key_algorithm == 1) then err invalid_enum else ok tt
  validate_nonzero_enum (enum_of 4 identity.platform)
  validate_utf8_length identity.display_name max_device_name_utf8_bytes

-- `protocol_version.as_ref()`; the least minor version is 0.
unfoldable pub validate_protocol_version :
    Option ProtocolVersion → Result ValidationError (Unit {0})
validate_protocol_version none = err invalid_protocol_version
validate_protocol_version (some version) =
    if not (version.major == 1) then err invalid_protocol_version else ok tt

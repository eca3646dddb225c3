-- ===== src/Grants.antt =====
-- crates/host-agent/src/authorization.rs: the controllers that a Host has granted, and the checks
-- on an identity and on a stored grant. The generated messages are those of
-- gen/rust/src/generated/roammand.v1.rs. SHA-256 and the test of a point of Ed25519 are of other
-- packages: they are the fields of `Crypto`.
pub mod Maps
pub mod Store
pub mod Views
pub mod Registry
pub mod Sorted
pub mod Agrees
pub mod Permissions
pub mod Stored
pub mod Loaded
pub mod Restart
pub mod Changes
pub mod Valid
pub mod Outcomes
pub mod Files
pub mod Kept
pub mod Calls
pub mod History
use roammand.Base.{
  ℕ, ◌+◌, Bool, true, false, not, ◌&&◌, ◌||◌, Option, none, some, List, [], ◌∷◌, ◌++◌, Bytes, Text,
  bytes_eq, length, any, is_empty, ltb, leb, ◌==◌, Result, ok, err, ◌>>=◌, ◌>>◌, ok_or, map_err,
  ensure, if◌then◌else◌, text_len,
}
use roammand.Peer.Types.{SessionPermission, view_screen, control_input}
use roammand.Validation.{DeviceIdentity, validate_device_identity}

pub record Crypto : Type 0 where
  pub sha256 : Bytes → Bytes
  pub is_point : Bytes → Bool

abbrev pub grant_id_bytes : ℕ
grant_id_bytes = 16

abbrev pub grant_id_generation_attempts : ℕ
grant_id_generation_attempts = 16

abbrev pub max_controller_grants : ℕ
max_controller_grants = 256

-- `as i32`
unfoldable pub permission_number : SessionPermission → ℕ
permission_number SessionPermission.unspecified = 0
permission_number view_screen = 1
permission_number control_input = 2

pub record ControllerGrant : Type 0 where
  pub grant_id : Bytes
  pub host_device_id : Bytes
  pub controller : Option DeviceIdentity
  pub created_at_unix_ms : ℕ
  pub permissions : List ℕ

pub record ControllerGrantView : Type 0 where
  pub grant : Option ControllerGrant
  pub last_successful_connection_at_unix_ms : ℕ

pub data GrantStoreError : Type 0 where
  io snapshot_too_large invalid_envelope unsupported_version checksum_mismatch : GrantStoreError
  invalid_payload host_mismatch injected_failure : GrantStoreError

pub data AuthorizationError : Type 0 where
  store_failed : GrantStoreError → AuthorizationError
  invalid_host_identity invalid_stored_grant duplicate_grant_id : AuthorizationError
  duplicate_controller invalid_controller self_grant invalid_permissions : AuthorizationError
  grant_conflict grant_limit random_generation grant_not_found : AuthorizationError

pub data IdentityDerivationError : Type 0 where
  invalid_public_key_length : IdentityDerivationError

-- The derived `==` on a DeviceIdentity.
unfoldable pub identity_eq : DeviceIdentity → DeviceIdentity → Bool
identity_eq a b =
    bytes_eq a.device_id b.device_id
    && a.public_key_algorithm == b.public_key_algorithm
    && bytes_eq a.public_key b.public_key
    && bytes_eq a.display_name b.display_name
    && a.platform == b.platform

-- b"personal-remote-device-id-v1"
abbrev pub identity_derivation_domain : Bytes
identity_derivation_domain =
    b'p' ∷ b'e' ∷ b'r' ∷ b's' ∷ b'o' ∷ b'n' ∷ b'a' ∷ b'l' ∷ b'-' ∷ b'r' ∷ b'e' ∷ b'm' ∷ b'o' ∷ b't'
    ∷ b'e' ∷ b'-' ∷ b'd' ∷ b'e' ∷ b'v' ∷ b'i' ∷ b'c' ∷ b'e' ∷ b'-' ∷ b'i' ∷ b'd' ∷ b'-' ∷ b'v'
    ∷ b'1' ∷ []

unfoldable pub derive_device_id_v1 : Crypto → Bytes → Result IdentityDerivationError Bytes
derive_device_id_v1 crypto public_key = do
  ensure (length public_key == 32) invalid_public_key_length
  ok (Crypto.sha256 crypto (identity_derivation_domain ++ (0 ∷ 0 ∷ 1 ∷ public_key)))

unfoldable pub validate_controller : Crypto → DeviceIdentity → Result AuthorizationError (Unit {0})
validate_controller crypto controller = do
  map_err invalid_controller (validate_device_identity controller)
  ensure (length controller.public_key == 32) invalid_controller
  ensure (Crypto.is_point crypto controller.public_key) invalid_controller
  derived ← map_err invalid_controller (derive_device_id_v1 crypto controller.public_key)
  ensure (bytes_eq controller.device_id derived) invalid_controller

-- BTreeSet<i32>: `insert`, where the value is not there
unfoldable pub insert_value : ℕ → List ℕ → List ℕ
insert_value value [] = value ∷ []
insert_value value (other ∷ set) =
    let rest = insert_value value set in
    if ltb value other then value ∷ other ∷ set else other ∷ rest

-- The loop over the values, with the set so far.
unfoldable pub normalize_each : List ℕ → List ℕ → Result AuthorizationError (List ℕ)
normalize_each set [] = ok set
normalize_each set (value ∷ values) = do
  ensure (leb value 2) invalid_permissions
  ensure (not (value == 0 || any (λ v. v == value) set)) invalid_permissions
  normalize_each (insert_value value set) values

unfoldable pub normalize_stored_permissions : List ℕ → Result AuthorizationError (List ℕ)
unfolding permission_number
normalize_stored_permissions permissions = do
  ensure (not (is_empty permissions)) invalid_permissions
  normalized ← normalize_each [] permissions
  ensure
      (not (
        any (λ v. v == permission_number control_input) normalized
        && not (any (λ v. v == permission_number view_screen) normalized)))
      invalid_permissions
  ok normalized

unfoldable pub permission_numbers : List SessionPermission → List ℕ
permission_numbers [] = []
permission_numbers (permission ∷ permissions) =
    permission_number permission ∷ permission_numbers permissions

unfoldable pub normalize_permissions : List SessionPermission → Result AuthorizationError (List ℕ)
normalize_permissions permissions = normalize_stored_permissions (permission_numbers permissions)

unfoldable pub validate_stored_grant :
    Crypto → ControllerGrantView → Bytes → Result AuthorizationError Bytes
validate_stored_grant crypto view expected_host_device_id = do
  grant ← ok_or view.grant invalid_stored_grant
  ensure
      (length grant.grant_id == grant_id_bytes
        && bytes_eq grant.host_device_id expected_host_device_id)
      invalid_stored_grant
  controller ← ok_or grant.controller invalid_stored_grant
  map_err invalid_stored_grant (validate_controller crypto controller)
  ensure (not (bytes_eq controller.device_id expected_host_device_id)) invalid_stored_grant
  normalized ← map_err invalid_stored_grant (normalize_stored_permissions grant.permissions)
  ensure (bytes_eq normalized grant.permissions) invalid_stored_grant
  ok controller.device_id

unfoldable pub device_id_of : Option DeviceIdentity → Option Bytes
device_id_of none = none
device_id_of (some controller) = some controller.device_id

unfoldable pub controller_device_id_of : Option ControllerGrant → Option Bytes
controller_device_id_of none = none
controller_device_id_of (some grant) = device_id_of grant.controller

unfoldable pub controller_device_id_for : ControllerGrantView → Option Bytes
controller_device_id_for view = controller_device_id_of view.grant

-- ===== src/Tests/Grants.antt =====
-- A Host with one controller, in memory and in a file.
use roammand.Grants.Maps.{get, bytes_lt, insert, remove, values}
use roammand.Frame.{to_be_bytes, from_be_bytes}
use roammand.Transcript.{to_be_bytes16, from_be_bytes16}
use roammand.Grants.Views.{
  find_grant, any_grant_id, grant_is, has_grant_id, insert_grant, is_of, key_is, key_lt,
  replace_first, retain_others, sort_grants,
}
use roammand.Base.{
  ◌≡◌, ◌≢◌, ◌⊎◌, refl, Bool, true, false, none, some, List, [], ◌∷◌, Bytes, ok, err, arith,
  bytes_eq, text_len, len_utf8,
}
use roammand.Validation.{
  DeviceIdentity, validate_device_identity, validate_length, validate_nonzero_enum, enum_of,
  validate_utf8_length,
}
use roammand.Peer.Types.{view_screen, control_input}
use roammand.Grants.{
  Crypto, ControllerGrantView, ControllerGrant, validate_controller, store_failed, injected_failure,
  io, derive_device_id_v1, normalize_permissions, controller_device_id_for, controller_device_id_of,
  device_id_of, identity_eq, insert_value, normalize_each, normalize_stored_permissions,
  permission_number, permission_numbers,
}
use roammand.Grants.Registry.{
  AuthorizationRegistry, load, controller_grant, revoke_controller_grant, from_store, load_each,
  record_authenticated_session, create_controller_grant, check_controller, add_grant, commit,
  existing_or_new, generate_grant_id, is_controller, list_controller_grants, new_grant, same_grant,
}
use roammand.Grants.Files.{
  Os, PrivateFile, MemoryGrantStore, memory_grant_store, persist_file, load_file, load_memory,
  load_snapshot, encode_envelope, atomic_write_private, load_contents, map_read_error,
  read_private_file, decode_envelope, persist_memory,
}
use roammand.Grants.History.{
  RegistryCall, create, record_session, run, perform, load-run, run-permitted, perform_err,
  AreDraws,
}
use roammand.Grants.Kept.{memory_grant_store-IsGrantStore, persist_file_either, persist_file_ok}
use roammand.Tests.Codec.{codec, decode-encode_to_vec}
use roammand.Tests.Transcripts.{repeat}

abbrev crypto : Crypto
crypto = record { sha256 = λ bytes. repeat 7 32; is_point = λ key. true }

abbrev host : Bytes
host = repeat 9 32

abbrev controller : DeviceIdentity
controller = record {
  device_id = repeat 7 32;
  public_key_algorithm = 1;
  public_key = repeat 1 32;
  display_name = 65 ∷ [];
  platform = 2;
}

abbrev calls : List RegistryCall
calls =
    create controller (control_input ∷ view_screen ∷ []) 100 (λ n. some (repeat 5 16))
    ∷ record_session (repeat 7 32) 200
    ∷ []

abbrev empty_store : MemoryGrantStore
empty_store = record { snapshot = none; fail_next_persist = false }

abbrev empty_registry : AuthorizationRegistry MemoryGrantStore
empty_registry = record { host_device_id = host; store = empty_store; grants_by_controller = [] }

loaded : load (memory_grant_store codec) crypto host empty_store ≡ ok empty_registry
unfolding load from_store memory_grant_store load_memory load_snapshot load_each
loaded = refl

drawn : AreDraws calls
drawn = ((λ k b e. ground arith), tt)

abbrev registry : AuthorizationRegistry MemoryGrantStore
registry = run (memory_grant_store codec) crypto empty_registry calls

load-run_example :
    load (memory_grant_store codec) crypto registry.host_device_id registry.store ≡ ok registry
load-run_example =
    load-run (memory_grant_store codec) crypto (memory_grant_store-IsGrantStore codec) host
      empty_store empty_registry calls loaded drawn

abbrev granted : ControllerGrantView
granted = record {
  grant = some (record {
    grant_id = repeat 5 16;
    host_device_id = host;
    controller = some controller;
    created_at_unix_ms = 100;
    permissions = 1 ∷ 2 ∷ [];
  });
  last_successful_connection_at_unix_ms = 200;
}

listed : controller_grant registry (repeat 7 32) ≡ some granted
unfolding controller_grant get run perform record_authenticated_session create_controller_grant
    check_controller validate_controller validate_device_identity validate_length
    validate_nonzero_enum enum_of validate_utf8_length text_len derive_device_id_v1 bytes_eq
    normalize_permissions len_utf8 bytes_lt insert remove values add_grant commit existing_or_new
    from_store generate_grant_id is_controller list_controller_grants new_grant
    revoke_controller_grant same_grant any_grant_id find_grant grant_is has_grant_id insert_grant
    is_of key_is key_lt replace_first retain_others sort_grants controller_device_id_for
    controller_device_id_of device_id_of identity_eq insert_value normalize_each
    normalize_stored_permissions permission_number permission_numbers memory_grant_store
    persist_memory
listed = refl

run-permitted_example :
    (grant : ControllerGrant) × (other : DeviceIdentity) × (granted.grant ≡ some grant)
    × (grant.controller ≡ some other)
    × (other.device_id ≡ repeat 7 32)
    × (validate_controller crypto other ≡ ok tt)
    × (repeat 7 32 ≢ registry.host_device_id)
    × (grant.host_device_id ≡ registry.host_device_id)
    × ((grant.permissions ≡ 1 ∷ []) ⊎ (grant.permissions ≡ 1 ∷ 2 ∷ []))
run-permitted_example =
    run-permitted (memory_grant_store codec) crypto (memory_grant_store-IsGrantStore codec) host
      empty_store empty_registry calls (repeat 7 32) granted loaded drawn listed

-- A store that fails once.
abbrev failing : AuthorizationRegistry MemoryGrantStore
failing = record empty_registry { store = record empty_store { fail_next_persist = true } }

abbrev first_call : RegistryCall
first_call = create controller (view_screen ∷ []) 100 (λ n. some (repeat 5 16))

refused :
    (perform (memory_grant_store codec) crypto failing first_call).1
    ≡ err (store_failed injected_failure)
unfolding perform create_controller_grant check_controller validate_controller
    validate_device_identity validate_length validate_nonzero_enum enum_of validate_utf8_length
    text_len derive_device_id_v1 bytes_eq normalize_permissions normalize_stored_permissions
    permission_numbers normalize_each insert_value len_utf8 bytes_lt get insert remove values
    add_grant commit existing_or_new from_store generate_grant_id is_controller
    list_controller_grants new_grant record_authenticated_session revoke_controller_grant same_grant
    any_grant_id find_grant grant_is has_grant_id insert_grant is_of key_is key_lt replace_first
    retain_others sort_grants controller_device_id_for controller_device_id_of device_id_of
    identity_eq permission_number memory_grant_store persist_memory
refused = refl

perform_err_example :
    (perform (memory_grant_store codec) crypto failing first_call).0.grants_by_controller ≡ []
perform_err_example =
    perform_err (memory_grant_store codec) crypto failing first_call (store_failed injected_failure)
      refused

-- An operating system that fails to synchronise the directory, and one that never fails.
abbrev os : Bool → Os
os synced = record {
  prepare = λ n. ok tt;
  write_temporary = λ n. true;
  rename = λ n. true;
  restrict_file_permissions = λ n. true;
  sync_directory = λ n. synced;
  try_exists = λ n. true;
  open_file = λ n. ok tt;
}

abbrev no_file : PrivateFile
no_file = record { contents = none; writes = 0 }

persist_file_either_example :
    let c = persist_file crypto codec (os false) no_file host (granted ∷ []) in
    (load_file crypto codec (os false) c.0 host ≡ load_file crypto codec (os false) no_file host)
    ⊎ (load_file crypto codec (os false) c.0 host ≡ ok (granted ∷ []))
persist_file_either_example =
    persist_file_either crypto codec (os false) no_file host (granted ∷ []) (λ bytes. refl)
      decode-encode_to_vec (record { found = λ n. refl; opened = λ n. refl })

-- The write fails, and the grant is there all the same.
stored_all_the_same :
    let c = persist_file crypto codec (os false) no_file host (granted ∷ []) in
    (c.1 ≡ err io) × (load_file crypto codec (os false) c.0 host ≡ ok (granted ∷ []))
unfolding persist_file encode_envelope atomic_write_private load_file load_contents map_read_error
    read_private_file to_be_bytes16 to_be_bytes decode_envelope bytes_eq from_be_bytes16
    from_be_bytes
stored_all_the_same = (refl, refl)

persisted : (persist_file crypto codec (os true) no_file host (granted ∷ [])).1 ≡ ok tt
unfolding persist_file encode_envelope atomic_write_private
persisted = refl

persist_file_ok_example :
    load_file crypto codec
      (os true)
      (persist_file crypto codec (os true) no_file host (granted ∷ [])).0
      host
    ≡ ok (granted ∷ [])
persist_file_ok_example =
    persist_file_ok crypto codec (os true) no_file host (granted ∷ []) (λ bytes. refl)
      decode-encode_to_vec (record { found = λ n. refl; opened = λ n. refl }) persisted

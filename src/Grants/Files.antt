-- ===== src/Grants/Files.antt =====
-- FileGrantStore and MemoryGrantStore of crates/host-agent/src/grant_store.rs, over the private files
-- of crates/host-platform/src/restricted_fs.rs as a Unix build has them. The encoding of a snapshot
-- (prost), SHA-256 and the calls of the operating system are of other packages: they are the fields
-- of `Codec`, `Crypto` and `Os`. A mutex is never poisoned.
use roammand.Base.{
  ℕ, suc, ◌+◌, Bool, false, not, Option, none, some, List, [], ◌∷◌, ◌++◌, Bytes, bytes_eq, length,
  take, drop, ltb, ◌==◌, Result, ok, err, ◌>>=◌, ◌>>◌, ok_or, map_err, ensure, Call, and_then,
  if◌then◌else◌,
}
use roammand.Frame.{to_be_bytes, from_be_bytes}
use roammand.Transcript.{to_be_bytes16, from_be_bytes16}
use roammand.Grants.{
  Crypto, ControllerGrantView, GrantStoreError, io, snapshot_too_large, invalid_envelope,
  unsupported_version, checksum_mismatch, invalid_payload, host_mismatch, injected_failure,
}
use roammand.Grants.Store.{GrantStore}

-- b"PRDG"
abbrev pub snapshot_magic : Bytes
snapshot_magic = b'P' ∷ b'R' ∷ b'D' ∷ b'G' ∷ []

abbrev pub snapshot_version : ℕ
snapshot_version = 1

abbrev pub version_offset : ℕ
version_offset = 4

abbrev pub length_offset : ℕ
length_offset = 6

abbrev pub checksum_offset : ℕ
checksum_offset = 10

abbrev pub envelope_header_bytes : ℕ
envelope_header_bytes = 42

abbrev pub max_host_authorization_snapshot_bytes : ℕ
max_host_authorization_snapshot_bytes = 1048576

abbrev pub max_envelope_bytes : ℕ
max_envelope_bytes = envelope_header_bytes + max_host_authorization_snapshot_bytes

pub record HostAuthorizationSnapshot : Type 0 where
  pub host_device_id : Bytes
  pub grants : List ControllerGrantView

pub record Codec : Type 0 where
  pub encode_to_vec : HostAuthorizationSnapshot → Bytes
  pub decode : Bytes → Option HostAuthorizationSnapshot

pub data RestrictedFsError : Type 0 where
  symbolic_link not_directory not_regular_file file_too_large : RestrictedFsError
  invalid_path fs_io : RestrictedFsError

-- How the calls of the operating system come out, by the number of writes before: the steps of a
-- write, whether a path can be looked up, and the error of a read.
pub record Os : Type 0 where
  pub prepare : ℕ → Result RestrictedFsError (Unit {0})
  pub write_temporary : ℕ → Bool
  pub rename : ℕ → Bool
  pub restrict_file_permissions : ℕ → Bool
  pub sync_directory : ℕ → Bool
  pub try_exists : ℕ → Bool
  pub open_file : ℕ → Result RestrictedFsError (Unit {0})

-- The file at the path of a FileGrantStore, and the number of writes so far.
pub record PrivateFile : Type 0 where
  pub contents : Option Bytes
  pub writes : ℕ

unfoldable pub atomic_write_private :
    Os → PrivateFile → Bytes → Call PrivateFile RestrictedFsError (Unit {0})
atomic_write_private os file contents =
    let n = file.writes in
    and_then (record file { writes = suc n }, os.prepare n)
      (λ f _.
        and_then (f, ensure (os.write_temporary n) fs_io)
          (λ f _.
            and_then (f, ensure (os.rename n) fs_io)
              (λ f _.
                and_then
                  (
                    record f { contents = some contents },
                    ensure (os.restrict_file_permissions n) fs_io,
                  )
                  (λ f _. (f, ensure (os.sync_directory n) fs_io)))))

unfoldable pub read_private_file : Os → PrivateFile → Bytes → ℕ → Result RestrictedFsError Bytes
read_private_file os file contents maximum_bytes = do
  os.open_file file.writes
  if ltb maximum_bytes (length contents) then err file_too_large else ok contents

unfoldable pub map_read_error : {A : Type 0} → Result RestrictedFsError A → Result GrantStoreError A
map_read_error (ok a) = ok a
map_read_error (err file_too_large) = err snapshot_too_large
map_read_error (err _) = err io

unfoldable pub encode_envelope :
    Crypto → Codec → Bytes → List ControllerGrantView → Result GrantStoreError Bytes
encode_envelope crypto codec host_device_id grants =
    let payload =
      codec.encode_to_vec (record { host_device_id = host_device_id; grants = grants }) in
    if ltb max_host_authorization_snapshot_bytes (length payload)
    then err snapshot_too_large
    else ok (
        snapshot_magic
        ++ (to_be_bytes16 snapshot_version
            ++ (to_be_bytes (length payload) ++ (Crypto.sha256 crypto payload ++ payload))))

unfoldable pub decode_envelope :
    Crypto → Codec → Bytes → Bytes → Result GrantStoreError (List ControllerGrantView)
decode_envelope crypto codec envelope expected_host_device_id = do
  if ltb (length envelope) envelope_header_bytes then err invalid_envelope else ok tt
  if not (bytes_eq (take version_offset envelope) snapshot_magic)
      then err invalid_envelope
      else ok tt
  if not (from_be_bytes16 (take 2 (drop version_offset envelope)) == snapshot_version)
      then err unsupported_version
      else ok tt
  let payload_length = from_be_bytes (take 4 (drop length_offset envelope)) in
      do
        if ltb max_host_authorization_snapshot_bytes payload_length
            then err snapshot_too_large
            else ok tt
        if not (length envelope == envelope_header_bytes + payload_length)
            then err invalid_envelope
            else ok tt
        let payload = drop envelope_header_bytes envelope in
            do
              if not (
                    bytes_eq (Crypto.sha256 crypto payload)
                      (take 32 (drop checksum_offset envelope)))
                  then err checksum_mismatch
                  else ok tt
              snapshot ← ok_or (codec.decode payload) invalid_payload
              if not (bytes_eq snapshot.host_device_id expected_host_device_id)
                  then err host_mismatch
                  else ok snapshot.grants

unfoldable pub load_contents :
    Crypto
    → Codec
    → Os
    → PrivateFile
    → Bytes
    → Option Bytes
    → Result GrantStoreError (List ControllerGrantView)
load_contents crypto codec os file host_device_id none = ok []
load_contents crypto codec os file host_device_id (some contents) = do
  envelope ← map_read_error (read_private_file os file contents max_envelope_bytes)
  decode_envelope crypto codec envelope host_device_id

unfoldable pub load_file :
    Crypto → Codec → Os → PrivateFile → Bytes → Result GrantStoreError (List ControllerGrantView)
load_file crypto codec os file host_device_id = do
  ensure (os.try_exists file.writes) io
  load_contents crypto codec os file host_device_id file.contents

unfoldable pub persist_file :
    Crypto
    → Codec
    → Os
    → PrivateFile
    → Bytes
    → List ControllerGrantView
    → Call PrivateFile GrantStoreError (Unit {0})
persist_file crypto codec os file host_device_id grants =
    and_then (file, encode_envelope crypto codec host_device_id grants)
      (λ f envelope.
        let written = atomic_write_private os f envelope in (written.0, map_err io written.1))

unfoldable pub file_grant_store : Crypto → Codec → Os → GrantStore PrivateFile
file_grant_store crypto codec os = record {
  load = load_file crypto codec os;
  persist = persist_file crypto codec os;
}

pub record MemoryGrantStore : Type 0 where
  pub snapshot : Option HostAuthorizationSnapshot
  pub fail_next_persist : Bool

unfoldable pub load_snapshot :
    Option HostAuthorizationSnapshot → Bytes → Result GrantStoreError (List ControllerGrantView)
load_snapshot none host_device_id = ok []
load_snapshot (some value) host_device_id =
    if bytes_eq value.host_device_id host_device_id then ok value.grants else err host_mismatch

unfoldable pub load_memory :
    MemoryGrantStore → Bytes → Result GrantStoreError (List ControllerGrantView)
load_memory store host_device_id = load_snapshot store.snapshot host_device_id

unfoldable pub persist_memory :
    Codec
    → MemoryGrantStore
    → Bytes
    → List ControllerGrantView
    → Call MemoryGrantStore GrantStoreError (Unit {0})
persist_memory codec store host_device_id grants =
    let snapshot : HostAuthorizationSnapshot = record {
      host_device_id = host_device_id;
      grants = grants;
    } in
    let swapped = record store { fail_next_persist = false } in
    if store.fail_next_persist
    then (swapped, err injected_failure)
    else if ltb max_host_authorization_snapshot_bytes (length (codec.encode_to_vec snapshot))
    then (swapped, err snapshot_too_large)
    else (record swapped { snapshot = some snapshot }, ok tt)

unfoldable pub memory_grant_store : Codec → GrantStore MemoryGrantStore
memory_grant_store codec = record { load = load_memory; persist = persist_memory codec }

-- ===== src/Grants/Kept.antt =====
-- The stores of crates/host-agent/src/grant_store.rs keep what they are given.
use roammand.Base.{
  ℕ, ◌+◌, ◌≤◌, ◌<◌, ◌≡◌, refl, subst, ◌⊎◌, true, some, List, ◌++◌, Bytes, bytes_eq_refl, length,
  length-append, take, drop, ltb, ok, Bool-cases, Option-cases, Result-cases, inl, inr, arith,
}
use roammand.Frame.{to_be_bytes, from_be_bytes}
use roammand.Transcript.{to_be_bytes16, from_be_bytes16}
use roammand.Transcript.Fields.{take-append, drop-append}
use roammand.Grants.{Crypto, ControllerGrantView}
use roammand.Grants.Files.{
  snapshot_magic, max_host_authorization_snapshot_bytes, max_envelope_bytes,
  HostAuthorizationSnapshot, Codec, Os, PrivateFile, atomic_write_private, read_private_file,
  map_read_error, encode_envelope, decode_envelope, load_contents, load_file, persist_file,
  file_grant_store, load_snapshot, load_memory, persist_memory, memory_grant_store,
}
use roammand.Grants.Restart.{IsGrantStore}

-- A snapshot that is encoded is decoded again.
abbrev pub IsCodec : Codec → Type 0
IsCodec codec =
    (snapshot : HostAuthorizationSnapshot)
    → codec.decode (codec.encode_to_vec snapshot) ≡ some snapshot

-- A digest has 32 bytes.
abbrev pub IsDigest : Crypto → Type 0
IsDigest crypto = (bytes : Bytes) → length (Crypto.sha256 crypto bytes) ≡ 32

-- The parts of an envelope.
envelope_parts :
    (n : ℕ) (sum payload : Bytes)
    → length sum ≡ 32
    → n < 4294967296
    → let e = snapshot_magic ++ (to_be_bytes16 1 ++ (to_be_bytes n ++ (sum ++ payload))) in
      (length e ≡ 42 + length payload)
      × (take 4 e ≡ snapshot_magic)
      × (from_be_bytes16 (take 2 (drop 4 e)) ≡ 1)
      × (from_be_bytes (take 4 (drop 6 e)) ≡ n)
      × (take 32 (drop 10 e) ≡ sum)
      × (drop 42 e ≡ payload)
unfolding to_be_bytes to_be_bytes16 from_be_bytes from_be_bytes16
envelope_parts n sum payload s h = (
  omega (arith, length-append sum payload),
  refl,
  refl,
  ground arith,
  subst (λ k. take k (sum ++ payload) ≡ sum) s (take-append sum payload),
  subst (λ k. drop k (sum ++ payload) ≡ payload) s (drop-append sum payload),
)

pub decode_envelope-encode_envelope :
    (crypto : Crypto) (codec : Codec) (host envelope : Bytes) (grants : List ControllerGrantView)
    → IsDigest crypto
    → IsCodec codec
    → encode_envelope crypto codec host grants ≡ ok envelope
    → (decode_envelope crypto codec envelope host ≡ ok grants)
      × (length envelope ≤ max_envelope_bytes)
unfolding encode_envelope decode_envelope
decode_envelope-encode_envelope crypto codec host envelope grants digest prost h =
    let snapshot : HostAuthorizationSnapshot = record { host_device_id = host; grants = grants } in
    let payload = codec.encode_to_vec snapshot in
    let sum = Crypto.sha256 crypto payload in
    elim (Bool-cases (ltb max_host_authorization_snapshot_bytes (length payload))) [
      | inl big ↦ absurd (ground arith)
      | inr small ↦
          let (sized, magic, version, counted, summed, rest) =
            envelope_parts (length payload) sum payload (digest payload) (ground arith) in
          let same : snapshot_magic
                ++ (to_be_bytes16 1 ++ (to_be_bytes (length payload) ++ (sum ++ payload)))
              ≡ envelope =
            ground arith in
          ground (
            arith,
            bytes_eq_refl snapshot_magic,
            bytes_eq_refl sum,
            bytes_eq_refl host,
            prost snapshot,
          )
    ]

-- Reads do not fail.
pub record IsReadable (os : Os) : Type 0 where
  pub found : (n : ℕ) → os.try_exists n ≡ true
  pub opened : (n : ℕ) → os.open_file n ≡ ok tt

-- A write does not fail once it has replaced the file.
pub record IsReliable (os : Os) : Type 0 where
  pub restricted : (n : ℕ) → os.restrict_file_permissions n ≡ true
  pub synced : (n : ℕ) → os.sync_directory n ≡ true

-- A write that succeeds has replaced the contents.
atomic_write_private_ok :
    (os : Os) (file : PrivateFile) (contents : Bytes)
    → let c = atomic_write_private os file contents in c.1 ≡ ok tt → c.0.contents ≡ some contents
unfolding atomic_write_private
atomic_write_private_ok os file contents h = ground arith

-- One that fails has left them as they were, or has replaced them all the same.
atomic_write_private_err :
    (os : Os) (file : PrivateFile) (contents : Bytes)
    → let c = atomic_write_private os file contents in
      (c.0.contents ≡ file.contents) ⊎ (c.0.contents ≡ some contents)
unfolding atomic_write_private
atomic_write_private_err os file contents = ground arith

load_file-contents :
    (crypto : Crypto) (codec : Codec) (os : Os) (file : PrivateFile) (host envelope : Bytes)
    (grants : List ControllerGrantView)
    → IsReadable os
    → decode_envelope crypto codec envelope host ≡ ok grants
    → length envelope ≤ max_envelope_bytes
    → file.contents ≡ some envelope
    → load_file crypto codec os file host ≡ ok grants
unfolding load_file load_contents read_private_file map_read_error
load_file-contents crypto codec os file host envelope grants r d l e =
    ground (arith, r.found file.writes, r.opened file.writes)

load_file-same :
    (crypto : Crypto) (codec : Codec) (os : Os) (file other : PrivateFile) (host : Bytes)
    → IsReadable os
    → other.contents ≡ file.contents
    → load_file crypto codec os other host ≡ load_file crypto codec os file host
unfolding load_file load_contents read_private_file
load_file-same crypto codec os file other host r e = elim (Option-cases file.contents) [
  | inl n ↦ rw (e, n, r.found file.writes, r.found other.writes) refl
  | inr (contents, n) ↦
      rw
        (
          e,
          n,
          r.found file.writes,
          r.found other.writes,
          r.opened file.writes,
          r.opened other.writes,
        )
        refl
]

atomic_write_private_kept :
    (os : Os) (file : PrivateFile) (contents : Bytes)
    → let c = atomic_write_private os file contents in
      IsReliable os → (c.1 ≡ ok tt) ⊎ (c.0.contents ≡ file.contents)
unfolding atomic_write_private
atomic_write_private_kept os file contents r =
    ground (arith, r.restricted file.writes, r.synced file.writes)

-- If digests have 32 bytes, snapshots are decoded as they were encoded and reads do not fail, then
-- grants that are persisted in a file with success are loaded from it again, for the same Host.
pub persist_file_ok :
    (crypto : Crypto) (codec : Codec) (os : Os) (file : PrivateFile) (host : Bytes)
    (grants : List ControllerGrantView)
    → let c = persist_file crypto codec os file host grants in
      IsDigest crypto
      → IsCodec codec
      → IsReadable os
      → c.1 ≡ ok tt
      → load_file crypto codec os c.0 host ≡ ok grants
unfolding persist_file
persist_file_ok crypto codec os file host grants digest prost r h =
    elim (Result-cases (encode_envelope crypto codec host grants)) [
      | inr (x, e) ↦ absurd (ground arith)
      | inl (envelope, e) ↦
          let (decoded, short) =
            decode_envelope-encode_envelope crypto codec host envelope grants digest prost e in
          let w = atomic_write_private os file envelope in
          let done : w.1 ≡ ok tt = ground arith in
          rw e (
            load_file-contents crypto codec os w.0 host envelope grants r decoded short
              (atomic_write_private_ok os file envelope done))
    ]

-- If digests have 32 bytes, snapshots are decoded as they were encoded and reads do not fail, then
-- after a call to persist, whatever it returns and whatever step of the write fails, the store
-- loads what it loaded before, or exactly the grants that it was given.
pub persist_file_either :
    (crypto : Crypto) (codec : Codec) (os : Os) (file : PrivateFile) (host : Bytes)
    (grants : List ControllerGrantView)
    → let c = persist_file crypto codec os file host grants in
      IsDigest crypto
      → IsCodec codec
      → IsReadable os
      → (load_file crypto codec os c.0 host ≡ load_file crypto codec os file host)
        ⊎ (load_file crypto codec os c.0 host ≡ ok grants)
unfolding persist_file
persist_file_either crypto codec os file host grants digest prost r =
    elim (Result-cases (encode_envelope crypto codec host grants)) [
      | inr (x, e) ↦ rw e (inl refl)
      | inl (envelope, e) ↦
          let (decoded, short) =
            decode_envelope-encode_envelope crypto codec host envelope grants digest prost e in
          let w = atomic_write_private os file envelope in
          elim (atomic_write_private_err os file envelope) [
            | inl same ↦ rw e (inl (load_file-same crypto codec os file w.0 host r same))
            | inr replaced ↦ rw e (
                inr (
                  load_file-contents crypto codec os w.0 host envelope grants r decoded short
                    replaced))
          ]
    ]

pub file_grant_store-IsGrantStore :
    (crypto : Crypto) (codec : Codec) (os : Os)
    → IsDigest crypto
    → IsCodec codec
    → IsReadable os
    → IsReliable os
    → IsGrantStore (file_grant_store crypto codec os)
unfolding file_grant_store persist_file
file_grant_store-IsGrantStore crypto codec os digest prost r w = record {
  saved = λ file host grants h. persist_file_ok crypto codec os file host grants digest prost r h;
  kept = λ file host grants x h. elim (Result-cases (encode_envelope crypto codec host grants)) [
    | inr (y, e) ↦ rw e refl
    | inl (envelope, e) ↦ elim (atomic_write_private_kept os file envelope w) [
      | inl done ↦ absurd (ground arith)
      | inr same ↦ rw e (
          load_file-same crypto codec os file (atomic_write_private os file envelope).0 host r same)
    ]
  ];
}

pub memory_grant_store-IsGrantStore : (codec : Codec) → IsGrantStore (memory_grant_store codec)
unfolding memory_grant_store persist_memory load_memory load_snapshot
memory_grant_store-IsGrantStore codec = record {
  saved = λ store host grants h. ground (arith, bytes_eq_refl host);
  kept = λ store host grants x h. ground arith;
}

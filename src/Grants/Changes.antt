-- ===== src/Grants/Changes.antt =====
-- What the calls of AuthorizationRegistry (crates/host-agent/src/authorization.rs) change keeps to the
-- rules of the map.
use roammand.Base.{
  ℕ, zero, suc, ◌≡◌, refl, ap, sym, subst, ◌∙◌, false, Option, some, List, [], ◌∷◌, Bytes, bytes_eq,
  bytes_eq_refl, length, ok, Bool-cases, Option-cases, inl, inr, arith,
}
use roammand.Validation.{DeviceIdentity}
use roammand.Grants.{
  Crypto, ControllerGrantView, grant_id_bytes, validate_stored_grant, validate_controller,
  normalize_stored_permissions,
}
use roammand.Grants.Maps.{get, insert, remove, values}
use roammand.Grants.Views.{GrantMap, has_grant_id, any_grant_id, find_grant}
use roammand.Grants.Registry.{generate_grant_id, new_grant}
use roammand.Grants.Sorted.{IsSorted, AreAbove-lower, get_above}
use roammand.Grants.Stored.{AreDistinct, id_of}

-- Each draw that does not fail gives 16 bytes.
abbrev pub IsDraw : (ℕ → Option Bytes) → Type 0
IsDraw draws = (k : ℕ) (b : Bytes) → draws k ≡ some b → length b ≡ grant_id_bytes

pub generate_grant_id_ok :
    (draws : ℕ → Option Bytes) (attempts : ℕ) (views : List ControllerGrantView) (id : Bytes)
    → IsDraw draws
    → generate_grant_id draws attempts views ≡ ok id
    → (length id ≡ grant_id_bytes) × (any_grant_id id views ≡ false)
unfolding generate_grant_id
generate_grant_id_ok draws zero views id d h = absurd (ground arith)
generate_grant_id_ok draws (suc attempts) views id d h = elim (Option-cases (draws attempts)) [
  | inl e ↦ absurd (ground arith)
  | inr (drawn, e) ↦ elim (Bool-cases (any_grant_id drawn views)) [
    | inl used ↦ generate_grant_id_ok draws attempts views id d (ground arith)
    | inr unused ↦
        let same : drawn ≡ id = ground arith in
        (
          subst (λ t. length t ≡ grant_id_bytes) same (d attempts drawn e),
          subst (λ t. any_grant_id t views ≡ false) same unused,
        )
  ]
]

pub new_grant-stored :
    (crypto : Crypto) (id host : Bytes) (controller : DeviceIdentity) (at : ℕ)
    (permissions : List ℕ)
    → length id ≡ grant_id_bytes
    → validate_controller crypto controller ≡ ok tt
    → bytes_eq controller.device_id host ≡ false
    → normalize_stored_permissions permissions ≡ ok permissions
    → validate_stored_grant crypto (new_grant id host controller at permissions) host
      ≡ ok controller.device_id
unfolding validate_stored_grant new_grant
new_grant-stored crypto id host controller at permissions sized valid other normal =
    ground (arith, bytes_eq_refl host, bytes_eq_refl permissions)

-- An updated entry has the identifier of the one it replaces.
insert_same-used :
    (x k : Bytes) (existing updated : ControllerGrantView) (map : GrantMap)
    → updated.grant ≡ existing.grant
    → IsSorted map
    → get k map ≡ some existing
    → any_grant_id x (values (insert k updated map)) ≡ any_grant_id x (values map)
unfolding any_grant_id values insert get has_grant_id
insert_same-used x k existing updated [] same s g = absurd (ground arith)
insert_same-used x k existing updated ((j, other) ∷ map) same s g =
    ground
      (arith, get_above k map, AreAbove-lower k j map, insert_same-used x k existing updated map)

pub insert_same-AreDistinct :
    (k : Bytes) (existing updated : ControllerGrantView) (map : GrantMap)
    → updated.grant ≡ existing.grant
    → IsSorted map
    → get k map ≡ some existing
    → AreDistinct (values map)
    → AreDistinct (values (insert k updated map))
unfolding values insert get
insert_same-AreDistinct k existing updated [] same s g d = absurd (ground arith)
insert_same-AreDistinct k existing updated ((j, other) ∷ map) same s g d =
    elim (Bool-cases (bytes_eq k j)) [
      | inl equal ↦
          let found : other ≡ existing = ground arith in
          let named : id_of other.grant ≡ id_of updated.grant =
            ap (λ v. id_of v.grant) found ∙ ap id_of (sym same) in
          rw equal (subst (λ t. any_grant_id t (values map) ≡ false) named d.0, d.1)
      | inr differ ↦
          let deeper : get k map ≡ some existing = ground arith in
          let rest = insert_same-AreDistinct k existing updated map same s.1 deeper d.1 in
          let used = insert_same-used (id_of other.grant) k existing updated map same s.1 deeper in
          ground (arith, get_above k map, AreAbove-lower k j map)
    ]

remove-unused :
    (x k : Bytes) (map : GrantMap)
    → any_grant_id x (values map) ≡ false
    → any_grant_id x (values (remove k map)) ≡ false
unfolding any_grant_id values remove
remove-unused x k [] h = refl
remove-unused x k ((j, other) ∷ map) h = ground (arith, remove-unused x k map)

pub remove-AreDistinct :
    (k : Bytes) (map : GrantMap) → AreDistinct (values map) → AreDistinct (values (remove k map))
unfolding values remove
remove-AreDistinct k [] d = tt
remove-AreDistinct k ((j, other) ∷ map) d =
    ground (arith, remove-unused (id_of other.grant) k map, remove-AreDistinct k map d.1)

pub touched-stored :
    (crypto : Crypto) (host k : Bytes) (existing : ControllerGrantView) (at : ℕ)
    → validate_stored_grant crypto existing host ≡ ok k
    → validate_stored_grant crypto
        (record existing { last_successful_connection_at_unix_ms = at })
        host
      ≡ ok k
unfolding validate_stored_grant
touched-stored crypto host k existing at h = h

pub new_grant-id :
    (id host : Bytes) (controller : DeviceIdentity) (at : ℕ) (permissions : List ℕ)
    → id_of (new_grant id host controller at permissions).grant ≡ id
unfolding new_grant
new_grant-id id host controller at permissions = refl

-- A grant is found under the identifier of its controller.
pub find_grant_ok :
    (id k : Bytes) (map : GrantMap)
    → find_grant id map ≡ some k
    → (view : ControllerGrantView) × (get k map ≡ some view)
unfolding find_grant get
find_grant_ok id k [] h = absurd (ground arith)
find_grant_ok id k ((j, view) ∷ map) h = elim (Bool-cases (bytes_eq k j)) [
  | inl same ↦ (view, ground arith)
  | inr differ ↦ elim (Bool-cases (has_grant_id id view)) [
    | inl used ↦ absurd (ground (arith, bytes_eq_refl j))
    | inr other ↦ let (found, g) = find_grant_ok id k map (ground arith) in (found, ground arith)
  ]
]

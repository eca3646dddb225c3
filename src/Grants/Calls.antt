-- ===== src/Grants/Calls.antt =====
-- The calls of AuthorizationRegistry (crates/host-agent/src/authorization.rs), one after another.
use roammand.Base.{
  ℕ, ◌≡◌, refl, sym, subst, false, Option, none, List, Bytes, bytes_eq, length, leb, ok, ok_or,
  Bool-cases, Option-cases, Result-cases, inl, inr, arith,
}
use roammand.Validation.{DeviceIdentity}
use roammand.Peer.Types.{SessionPermission}
use roammand.Grants.{
  Crypto, max_controller_grants, validate_controller, normalize_stored_permissions,
  normalize_permissions, permission_numbers, invalid_stored_grant,
}
use roammand.Grants.Maps.{get, insert, remove, values}
use roammand.Grants.Store.{GrantStore}
use roammand.Grants.Views.{any_grant_id, find_grant}
use roammand.Grants.Registry.{
  AuthorizationRegistry, generate_grant_id, new_grant, add_grant, check_controller, existing_or_new,
  create_controller_grant, record_authenticated_session, revoke_controller_grant,
  list_controller_grants,
}
use roammand.Grants.Sorted.{
  insert-IsSorted, remove-IsSorted, length-insert_new, length-insert_old, length-remove,
}
use roammand.Grants.Agrees.{sort_grants-insert, replace_first-insert, retain_others-remove}
use roammand.Grants.Permissions.{normalize_again}
use roammand.Grants.Stored.{
  stored_grant, AreStored-AreKeyed, insert-AreStored, remove-AreStored, get-stored,
  insert-AreDistinct,
}
use roammand.Grants.Loaded.{IsGrantMap}
use roammand.Grants.Restart.{IsGrantStore, IsLoaded, commit-IsLoaded}
use roammand.Grants.Changes.{
  IsDraw, generate_grant_id_ok, new_grant-stored, insert_same-AreDistinct, remove-AreDistinct,
  touched-stored, new_grant-id,
}

module _ {S : Type 0} (stores : GrantStore S) (crypto : Crypto) (laws : IsGrantStore stores) where
  add_grant-IsLoaded :
      (registry : AuthorizationRegistry S) (controller : DeviceIdentity) (normalized : List ℕ)
      (at : ℕ) (draws : ℕ → Option Bytes)
      → IsLoaded stores crypto registry
      → IsDraw draws
      → validate_controller crypto controller ≡ ok tt
      → bytes_eq controller.device_id registry.host_device_id ≡ false
      → normalize_stored_permissions normalized ≡ ok normalized
      → get controller.device_id registry.grants_by_controller ≡ none
      → IsLoaded stores crypto (add_grant stores registry controller normalized at draws).0
  unfolding add_grant list_controller_grants
  add_grant-IsLoaded registry controller normalized at draws i d valid other normal fresh =
      let map = registry.grants_by_controller in
      let host = registry.host_device_id in
      let k = controller.device_id in
      elim (Bool-cases (leb max_controller_grants (length map))) [
        | inl full ↦ rw full i
        | inr room ↦ elim (Result-cases (generate_grant_id draws 16 (values map))) [
          | inr (x, e) ↦ rw (room, e) i
          | inl (id, e) ↦
              let (sized, unused) = generate_grant_id_ok draws 16 (values map) id d e in
              let view = new_grant id host controller at normalized in
              let stored =
                new_grant-stored crypto id host controller at normalized sized valid other normal in
              let keyed = (stored_grant crypto host view k stored).2 in
              let sorted =
                sort_grants-insert k view map keyed
                  (AreStored-AreKeyed crypto host map i.grants.stored) i.grants.sorted fresh in
              let m : IsGrantMap crypto host (insert k view map) = record {
                stored = insert-AreStored crypto host k view map stored i.grants.stored;
                sorted = insert-IsSorted k view map i.grants.sorted;
                distinct =
                    insert-AreDistinct crypto host k view map stored i.grants.stored
                      (subst (λ t. any_grant_id t (values map) ≡ false)
                        (sym (new_grant-id id host controller at normalized)) unused)
                      i.grants.distinct;
              } in
              rw (room, e, sorted)
                (commit-IsLoaded stores crypto laws registry (insert k view map) (ok view) i m
                  (ground (arith, length-insert_new k view map fresh)))
        ]
      ]

  check_controller_ok :
      (registry : AuthorizationRegistry S) (controller : DeviceIdentity)
      (permissions : List SessionPermission) (normalized : List ℕ)
      → check_controller crypto registry controller permissions ≡ ok normalized
      → (validate_controller crypto controller ≡ ok tt)
        × (bytes_eq controller.device_id registry.host_device_id ≡ false)
        × (normalize_stored_permissions normalized ≡ ok normalized)
  unfolding check_controller normalize_permissions
  check_controller_ok registry controller permissions normalized h =
      elim (Result-cases (validate_controller crypto controller)) [
        | inr (x, e) ↦ absurd (ground arith)
        | inl (u, e) ↦ elim (Bool-cases (bytes_eq controller.device_id registry.host_device_id)) [
          | inl own ↦ absurd (ground arith)
          | inr other ↦
              let normal : normalize_stored_permissions (permission_numbers permissions)
                  ≡ ok normalized =
                ground arith in
              (e, other, (normalize_again (permission_numbers permissions) normalized normal).1)
        ]
      ]

  pub create-IsLoaded :
      (registry : AuthorizationRegistry S) (controller : DeviceIdentity)
      (permissions : List SessionPermission) (at : ℕ) (draws : ℕ → Option Bytes)
      → IsLoaded stores crypto registry
      → IsDraw draws
      → IsLoaded stores crypto
          (create_controller_grant stores crypto registry controller permissions at draws).0
  unfolding create_controller_grant existing_or_new
  create-IsLoaded registry controller permissions at draws i d =
      elim (Result-cases (check_controller crypto registry controller permissions)) [
        | inr (x, e) ↦ rw e i
        | inl (normalized, e) ↦
            let (valid, other, normal) =
              check_controller_ok registry controller permissions normalized e in
            elim (Option-cases (get controller.device_id registry.grants_by_controller)) [
              | inr (existing, g) ↦ rw (e, g) i
              | inl g ↦
                  rw (e, g)
                    (add_grant-IsLoaded registry controller normalized at draws i d valid other
                      normal g)
            ]
      ]

  pub record-IsLoaded :
      (registry : AuthorizationRegistry S) (k : Bytes) (at : ℕ)
      → IsLoaded stores crypto registry
      → IsLoaded stores crypto (record_authenticated_session stores registry k at).0
  unfolding record_authenticated_session list_controller_grants
  record-IsLoaded registry k at i =
      let map = registry.grants_by_controller in
      let host = registry.host_device_id in
      elim (Option-cases (get k map)) [
        | inl g ↦ rw g i
        | inr (existing, g) ↦
            elim (Bool-cases (leb at existing.last_successful_connection_at_unix_ms)) [
              | inl older ↦ rw (g, older) i
              | inr newer ↦
                  let updated = record existing { last_successful_connection_at_unix_ms = at } in
                  let before = get-stored crypto host k existing map i.grants.stored g in
                  let stored = touched-stored crypto host k existing at before in
                  let next =
                    replace_first-insert k existing updated map
                      (AreStored-AreKeyed crypto host map i.grants.stored) i.grants.sorted g in
                  let m : IsGrantMap crypto host (insert k updated map) = record {
                    stored = insert-AreStored crypto host k updated map stored i.grants.stored;
                    sorted = insert-IsSorted k updated map i.grants.sorted;
                    distinct =
                        insert_same-AreDistinct k existing updated map refl i.grants.sorted g
                          i.grants.distinct;
                  } in
                  rw (g, newer, next)
                    (commit-IsLoaded stores crypto laws registry (insert k updated map) (ok updated)
                      i m
                      (omega (
                        arith,
                        i.bounded,
                        length-insert_old k updated existing map i.grants.sorted g,
                      )))
            ]
      ]

  pub revoke-IsLoaded :
      (registry : AuthorizationRegistry S) (id : Bytes)
      → IsLoaded stores crypto registry
      → IsLoaded stores crypto (revoke_controller_grant stores registry id).0
  unfolding revoke_controller_grant list_controller_grants
  revoke-IsLoaded registry id i =
      let map = registry.grants_by_controller in
      let host = registry.host_device_id in
      elim (Option-cases (find_grant id map)) [
        | inl e ↦ rw e i
        | inr (k, e) ↦
            let next =
              retain_others-remove k map (AreStored-AreKeyed crypto host map i.grants.stored)
                i.grants.sorted in
            let m : IsGrantMap crypto host (remove k map) = record {
              stored = remove-AreStored crypto host k map i.grants.stored;
              sorted = remove-IsSorted k map i.grants.sorted;
              distinct = remove-AreDistinct k map i.grants.distinct;
            } in
            rw (e, next)
              (commit-IsLoaded stores crypto laws registry (remove k map)
                (ok_or (get k map) invalid_stored_grant) i m
                (omega (arith, i.bounded, length-remove k map)))
      ]

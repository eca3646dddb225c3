-- ===== src/Grants/Outcomes.antt =====
-- What a call of AuthorizationRegistry (crates/host-agent/src/authorization.rs) does to the grants in
-- memory.
use roammand.Base.{
  ℕ, ◌≡◌, refl, sym, subst, false, ◌⊎◌, Option, none, List, [], ◌∷◌, ◌++◌, Bytes, bytes_eq,
  bytes_eq_iff, length, leb, Result, ok, err, Call, Bool-cases, Option-cases, Result-cases, inl,
  inr, arith,
}
use roammand.Validation.{DeviceIdentity}
use roammand.Peer.Types.{SessionPermission}
use roammand.Grants.{
  Crypto, ControllerGrantView, AuthorizationError, store_failed, max_controller_grants,
}
use roammand.Grants.Maps.{get, insert, remove, values}
use roammand.Grants.Store.{GrantStore}
use roammand.Grants.Views.{GrantMap, find_grant, sort_grants, replace_first, retain_others}
use roammand.Grants.Registry.{
  AuthorizationRegistry, commit, from_store, add_grant, existing_or_new, check_controller,
  generate_grant_id, new_grant, create_controller_grant, record_authenticated_session,
  revoke_controller_grant, list_controller_grants,
}
use roammand.Grants.Sorted.{IsSorted, get_above}
use roammand.Grants.Changes.{find_grant_ok}

module _ {ℓ} {A : Type ℓ} where
  pub get-remove : (k : Bytes) (map : List (Bytes × A)) → IsSorted map → get k (remove k map) ≡ none
  unfolding get remove
  get-remove k [] s = refl
  get-remove k ((j, a) ∷ map) s = elim (Bool-cases (bytes_eq k j)) [
    | inl same ↦
        rw same
          (subst (λ t. get t map ≡ none) (sym ((bytes_eq_iff k j).0 same)) (get_above j map s.0))
    | inr differ ↦ ground (arith, get-remove k map s.1)
  ]

  pub get-remove_other :
      (j k : Bytes) (map : List (Bytes × A))
      → bytes_eq j k ≡ false
      → get j (remove k map) ≡ get j map
  unfolding get remove
  get-remove_other j k [] d = refl
  get-remove_other j k ((i, a) ∷ map) d = elim (Bool-cases (bytes_eq k i)) [
    | inl same ↦
        let other : bytes_eq j i ≡ false =
          subst (λ t. bytes_eq j t ≡ false) ((bytes_eq_iff k i).0 same) d in
        ground arith
    | inr differ ↦ ground (arith, get-remove_other j k map d)
  ]

module _ {S : Type 0} (stores : GrantStore S) where
  -- Either the store failed, and the grants in memory are as before, or they are the new ones.
  commit_cases :
      (registry : AuthorizationRegistry S) (next : List ControllerGrantView) (map : GrantMap)
      (result : Result AuthorizationError ControllerGrantView)
      → let c = commit stores registry next map result in
        ((e : AuthorizationError) × (c.1 ≡ err e)
          × (c.0.grants_by_controller ≡ registry.grants_by_controller))
        ⊎ ((c.1 ≡ result) × (c.0.grants_by_controller ≡ map))
  unfolding commit from_store
  commit_cases registry next map result =
      elim (Result-cases (stores.persist registry.store registry.host_device_id next).1) [
        | inl (u, e) ↦ inr (rw e (refl, refl))
        | inr (x, e) ↦ inl (rw e (store_failed x, refl, refl))
      ]

  -- The call succeeds, or leaves the grants in memory as they were.
  abbrev pub IsSettled :
      AuthorizationRegistry S
      → Call (AuthorizationRegistry S) AuthorizationError ControllerGrantView
      → Type 0
  IsSettled registry c =
      ((view : ControllerGrantView) × (c.1 ≡ ok view))
      ⊎ (c.0.grants_by_controller ≡ registry.grants_by_controller)

  commit-IsSettled :
      (registry : AuthorizationRegistry S) (next : List ControllerGrantView) (map : GrantMap)
      (view : ControllerGrantView)
      → IsSettled registry (commit stores registry next map (ok view))
  commit-IsSettled registry next map view = elim (commit_cases registry next map (ok view)) [
    | inl (y, failed, same) ↦ inr same
    | inr (done, changed) ↦ inl (view, done)
  ]

  add_grant-IsSettled :
      (registry : AuthorizationRegistry S) (controller : DeviceIdentity) (normalized : List ℕ)
      (at : ℕ) (draws : ℕ → Option Bytes)
      → IsSettled registry (add_grant stores registry controller normalized at draws)
  unfolding add_grant
  add_grant-IsSettled registry controller normalized at draws =
      let map = registry.grants_by_controller in
      elim (Bool-cases (leb max_controller_grants (length map))) [
        | inl full ↦ rw full (inr refl)
        | inr room ↦ elim (Result-cases (generate_grant_id draws 16 (values map))) [
          | inr (y, e) ↦ rw (room, e) (inr refl)
          | inl (id, e) ↦
              let view = new_grant id registry.host_device_id controller at normalized in
              rw (room, e)
                (commit-IsSettled registry
                  (sort_grants (list_controller_grants registry ++ (view ∷ [])))
                  (insert controller.device_id view map) view)
        ]
      ]

  pub create-IsSettled :
      (crypto : Crypto) (registry : AuthorizationRegistry S) (controller : DeviceIdentity)
      (permissions : List SessionPermission) (at : ℕ) (draws : ℕ → Option Bytes)
      → IsSettled registry
          (create_controller_grant stores crypto registry controller permissions at draws)
  unfolding create_controller_grant existing_or_new
  create-IsSettled crypto registry controller permissions at draws =
      elim (Result-cases (check_controller crypto registry controller permissions)) [
        | inr (x, e) ↦ rw e (inr refl)
        | inl (normalized, e) ↦
            elim (Option-cases (get controller.device_id registry.grants_by_controller)) [
              | inr (existing, g) ↦ rw (e, g) (inr refl)
              | inl g ↦ rw (e, g) (add_grant-IsSettled registry controller normalized at draws)
            ]
      ]

  pub record-IsSettled :
      (registry : AuthorizationRegistry S) (k : Bytes) (at : ℕ)
      → IsSettled registry (record_authenticated_session stores registry k at)
  unfolding record_authenticated_session
  record-IsSettled registry k at =
      let map = registry.grants_by_controller in
      elim (Option-cases (get k map)) [
        | inl g ↦ rw g (inr refl)
        | inr (existing, g) ↦
            elim (Bool-cases (leb at existing.last_successful_connection_at_unix_ms)) [
              | inl older ↦ rw (g, older) (inr refl)
              | inr newer ↦
                  let updated = record existing { last_successful_connection_at_unix_ms = at } in
                  elim (Option-cases (replace_first k updated (list_controller_grants registry))) [
                    | inl n ↦ rw (g, newer, n) (inr refl)
                    | inr (next, n) ↦
                        rw (g, newer, n)
                          (commit-IsSettled registry next (insert k updated map) updated)
                  ]
            ]
      ]

  pub revoke-IsSettled :
      (registry : AuthorizationRegistry S) (id : Bytes)
      → IsSettled registry (revoke_controller_grant stores registry id)
  unfolding revoke_controller_grant
  revoke-IsSettled registry id =
      let map = registry.grants_by_controller in
      elim (Option-cases (find_grant id map)) [
        | inl e ↦ rw e (inr refl)
        | inr (k, e) ↦
            let (found, g) = find_grant_ok id k map e in
            rw (e, g)
              (commit-IsSettled registry (retain_others k (list_controller_grants registry))
                (remove k map) found)
      ]

-- ===== src/Grants/Registry.antt =====
-- AuthorizationRegistry of crates/host-agent/src/authorization.rs. It owns the state of its store.
-- `getrandom::fill` is of another package: a call is given what it draws, by the number of attempts
-- that are left.
use roammand.Base.{
  ℕ, zero, suc, Bool, false, not, ◌&&◌, Option, none, some, List, [], ◌∷◌, ◌++◌, Bytes, bytes_eq,
  length, any, leb, ◌==◌, Result, ok, err, ◌>>=◌, ◌>>◌, ok_or, ensure, Call, and_then,
  if◌then◌else◌,
}
use roammand.Validation.{DeviceIdentity, device_id_bytes}
use roammand.Peer.Types.{SessionPermission}
use roammand.Grants.{
  Crypto, ControllerGrantView, GrantStoreError, AuthorizationError, store_failed,
  invalid_host_identity, invalid_stored_grant, duplicate_grant_id, duplicate_controller, self_grant,
  grant_conflict, grant_limit, random_generation, grant_not_found, max_controller_grants,
  grant_id_generation_attempts, identity_eq, validate_controller, normalize_permissions,
  validate_stored_grant,
}
use roammand.Grants.Maps.{get, insert, remove, values}
use roammand.Grants.Store.{GrantStore}
use roammand.Grants.Views.{
  GrantMap, sort_grants, replace_first, retain_others, find_grant, any_grant_id,
}

pub record AuthorizationRegistry (S : Type 0) : Type 0 where
  pub host_device_id : Bytes
  pub store : S
  pub grants_by_controller : GrantMap

-- `AuthorizationError::from` of the `?` operator
unfoldable pub from_store : {A : Type 0} → Result GrantStoreError A → Result AuthorizationError A
from_store (ok a) = ok a
from_store (err e) = err (store_failed e)

unfoldable pub generate_grant_id :
    (ℕ → Option Bytes) → ℕ → List ControllerGrantView → Result AuthorizationError Bytes
generate_grant_id draws zero views = err random_generation
generate_grant_id draws (suc attempts) views = do
  grant_id ← ok_or (draws attempts) random_generation
  let rest = generate_grant_id draws attempts views in
      if not (any_grant_id grant_id views) then ok grant_id else rest

-- The loop of `load` over the stored grants, with the identifiers and the map so far.
unfoldable pub load_each :
    Crypto
    → Bytes
    → List Bytes
    → GrantMap
    → List ControllerGrantView
    → Result AuthorizationError GrantMap
load_each crypto host_device_id grant_ids grants [] = ok grants
load_each crypto host_device_id grant_ids grants (view ∷ views) = do
  controller_id ← validate_stored_grant crypto view host_device_id
  grant ← ok_or view.grant invalid_stored_grant
  ensure (not (any (bytes_eq grant.grant_id) grant_ids)) duplicate_grant_id
  elim (get controller_id grants) [
    | some previous ↦ err duplicate_controller
    | none ↦
        load_each crypto host_device_id (grant.grant_id ∷ grant_ids)
          (insert controller_id view grants) views
  ]

-- `existing_grant.controller.as_ref() == Some(&controller)`
unfoldable pub is_controller : DeviceIdentity → Option DeviceIdentity → Bool
is_controller controller none = false
is_controller controller (some other) = identity_eq other controller

-- The grant that the controller already has, if it is the one that is asked for.
unfoldable pub same_grant :
    ControllerGrantView → DeviceIdentity → List ℕ → Result AuthorizationError ControllerGrantView
same_grant existing controller normalized = do
  grant ← ok_or existing.grant invalid_stored_grant
  if is_controller controller grant.controller && bytes_eq grant.permissions normalized
      then ok existing
      else err grant_conflict

unfoldable pub new_grant : Bytes → Bytes → DeviceIdentity → ℕ → List ℕ → ControllerGrantView
new_grant grant_id host_device_id controller created_at_unix_ms permissions = record {
  grant = some (record {
    grant_id = grant_id;
    host_device_id = host_device_id;
    controller = some controller;
    created_at_unix_ms = created_at_unix_ms;
    permissions = permissions;
  });
  last_successful_connection_at_unix_ms = 0;
}

module _ {S : Type 0} where
  unfoldable pub load :
      GrantStore S → Crypto → Bytes → S → Result AuthorizationError (AuthorizationRegistry S)
  load stores crypto host_device_id store = do
    ensure (length host_device_id == device_id_bytes) invalid_host_identity
    loaded ← from_store (stores.load store host_device_id)
    ensure (leb (length loaded) max_controller_grants) invalid_stored_grant
    grants_by_controller ← load_each crypto host_device_id [] [] loaded
    ok (record {
      host_device_id = host_device_id;
      store = store;
      grants_by_controller = grants_by_controller;
    })

  unfoldable pub list_controller_grants : AuthorizationRegistry S → List ControllerGrantView
  list_controller_grants registry = values registry.grants_by_controller

  unfoldable pub controller_grant : AuthorizationRegistry S → Bytes → Option ControllerGrantView
  controller_grant registry controller_device_id =
      get controller_device_id registry.grants_by_controller

  -- `self.store.persist(&self.host_device_id, &next)?`, and then the map in memory
  unfoldable pub commit :
      GrantStore S
      → AuthorizationRegistry S
      → List ControllerGrantView
      → GrantMap
      → Result AuthorizationError ControllerGrantView
      → Call (AuthorizationRegistry S) AuthorizationError ControllerGrantView
  commit stores registry next grants result =
      let saved = stores.persist registry.store registry.host_device_id next in
      and_then (record registry { store = saved.0 }, from_store saved.1)
        (λ r _. (record r { grants_by_controller = grants }, result))

  -- `create_controller_grant` where the controller has no grant
  unfoldable pub add_grant :
      GrantStore S
      → AuthorizationRegistry S
      → DeviceIdentity
      → List ℕ
      → ℕ
      → (ℕ → Option Bytes)
      → Call (AuthorizationRegistry S) AuthorizationError ControllerGrantView
  add_grant stores registry controller normalized created_at_unix_ms draws =
      let grants = registry.grants_by_controller in
      and_then (registry, ensure (not (leb max_controller_grants (length grants))) grant_limit)
        (λ r _.
          and_then (r, generate_grant_id draws grant_id_generation_attempts (values grants))
            (λ r grant_id.
              let view =
                new_grant grant_id r.host_device_id controller created_at_unix_ms normalized in
              commit stores r (sort_grants (list_controller_grants r ++ (view ∷ [])))
                (insert controller.device_id view grants) (ok view)))

  -- The checks of `create_controller_grant`, and the permissions in order.
  unfoldable pub check_controller :
      Crypto
      → AuthorizationRegistry S
      → DeviceIdentity
      → List SessionPermission
      → Result AuthorizationError (List ℕ)
  check_controller crypto registry controller permissions = do
    validate_controller crypto controller
    ensure (not (bytes_eq controller.device_id registry.host_device_id)) self_grant
    normalize_permissions permissions

  -- `if let Some(existing) = self.grants_by_controller.get(..)`
  unfoldable pub existing_or_new :
      GrantStore S
      → AuthorizationRegistry S
      → DeviceIdentity
      → List ℕ
      → ℕ
      → (ℕ → Option Bytes)
      → Option ControllerGrantView
      → Call (AuthorizationRegistry S) AuthorizationError ControllerGrantView
  existing_or_new stores registry controller normalized created_at_unix_ms draws none =
      add_grant stores registry controller normalized created_at_unix_ms draws
  existing_or_new stores registry controller normalized created_at_unix_ms draws (some existing) =
      (registry, same_grant existing controller normalized)

  unfoldable pub create_controller_grant :
      GrantStore S
      → Crypto
      → AuthorizationRegistry S
      → DeviceIdentity
      → List SessionPermission
      → ℕ
      → (ℕ → Option Bytes)
      → Call (AuthorizationRegistry S) AuthorizationError ControllerGrantView
  create_controller_grant stores crypto registry controller permissions created_at_unix_ms draws =
      and_then (registry, check_controller crypto registry controller permissions)
        (λ r normalized.
          existing_or_new stores r controller normalized created_at_unix_ms draws
            (get controller.device_id r.grants_by_controller))

  unfoldable pub record_authenticated_session :
      GrantStore S
      → AuthorizationRegistry S
      → Bytes
      → ℕ
      → Call (AuthorizationRegistry S) AuthorizationError ControllerGrantView
  record_authenticated_session stores registry controller_device_id authenticated_at_unix_ms =
      let grants = registry.grants_by_controller in
      and_then (registry, ok_or (get controller_device_id grants) grant_not_found)
        (λ r existing.
          let updated = record existing {
            last_successful_connection_at_unix_ms = authenticated_at_unix_ms;
          } in
          if leb authenticated_at_unix_ms existing.last_successful_connection_at_unix_ms
          then (r, ok existing)
          else and_then
              (
                r,
                ok_or (replace_first controller_device_id updated (list_controller_grants r))
                    invalid_stored_grant,
              )
              (λ r next.
                commit stores r next (insert controller_device_id updated grants) (ok updated)))

  unfoldable pub revoke_controller_grant :
      GrantStore S
      → AuthorizationRegistry S
      → Bytes
      → Call (AuthorizationRegistry S) AuthorizationError ControllerGrantView
  revoke_controller_grant stores registry grant_id =
      let grants = registry.grants_by_controller in
      and_then (registry, ok_or (find_grant grant_id grants) grant_not_found)
        (λ r controller_id.
          commit stores r (retain_others controller_id (list_controller_grants r))
            (remove controller_id grants) (ok_or (get controller_id grants) invalid_stored_grant))

-- ===== src/Grants/History.antt =====
-- Histories of calls of AuthorizationRegistry (crates/host-agent/src/authorization.rs).
use roammand.Base.{
  ℕ, ◌≡◌, ◌≢◌, ◌⊎◌, Option, some, List, [], ◌∷◌, Bytes, ok, err, Call, inl, inr, arith,
}
use roammand.Validation.{DeviceIdentity}
use roammand.Peer.Types.{SessionPermission}
use roammand.Grants.{
  Crypto, ControllerGrant, ControllerGrantView, AuthorizationError, validate_controller,
}
use roammand.Grants.Store.{GrantStore}
use roammand.Grants.Registry.{
  AuthorizationRegistry, load, create_controller_grant, record_authenticated_session,
  revoke_controller_grant, controller_grant,
}
use roammand.Grants.Stored.{get-stored}
use roammand.Grants.Restart.{IsGrantStore, IsLoaded, load-IsLoaded}
use roammand.Grants.Changes.{IsDraw}
use roammand.Grants.Valid.{stored_parts}
use roammand.Grants.Outcomes.{IsSettled, create-IsSettled, record-IsSettled, revoke-IsSettled}
use roammand.Grants.Calls.{create-IsLoaded, record-IsLoaded, revoke-IsLoaded}

pub data RegistryCall : Type 0 where
  create : DeviceIdentity → List SessionPermission → ℕ → (ℕ → Option Bytes) → RegistryCall
  record_session : Bytes → ℕ → RegistryCall
  revoke : Bytes → RegistryCall

-- The draws of the calls that draw.
abbrev pub AreDraws : List RegistryCall → Type 0
AreDraws [] = Unit {0}
AreDraws (create controller permissions at draws ∷ calls) = IsDraw draws × AreDraws calls
AreDraws (record_session k at ∷ calls) = AreDraws calls
AreDraws (revoke id ∷ calls) = AreDraws calls

module _ {S : Type 0} (stores : GrantStore S) (crypto : Crypto) where
  unfoldable pub perform :
      AuthorizationRegistry S
      → RegistryCall
      → Call (AuthorizationRegistry S) AuthorizationError ControllerGrantView
  perform registry (create controller permissions at draws) =
      create_controller_grant stores crypto registry controller permissions at draws
  perform registry (record_session k at) = record_authenticated_session stores registry k at
  perform registry (revoke id) = revoke_controller_grant stores registry id

  -- The registry after the calls, with what each returned left aside.
  unfoldable pub run : AuthorizationRegistry S → List RegistryCall → AuthorizationRegistry S
  run registry [] = registry
  run registry (call ∷ calls) = run (perform registry call).0 calls

  run-IsLoaded :
      (laws : IsGrantStore stores) (registry : AuthorizationRegistry S) (calls : List RegistryCall)
      → IsLoaded stores crypto registry
      → AreDraws calls
      → IsLoaded stores crypto (run registry calls)
  unfolding run perform
  run-IsLoaded laws registry [] i d = i
  run-IsLoaded laws registry (create controller permissions at draws ∷ calls) i d =
      run-IsLoaded laws
        (create_controller_grant stores crypto registry controller permissions at draws).0 calls
        (create-IsLoaded stores crypto laws registry controller permissions at draws i d.0) d.1
  run-IsLoaded laws registry (record_session k at ∷ calls) i d =
      run-IsLoaded laws (record_authenticated_session stores registry k at).0 calls
        (record-IsLoaded stores crypto laws registry k at i) d
  run-IsLoaded laws registry (revoke id ∷ calls) i d =
      run-IsLoaded laws (revoke_controller_grant stores registry id).0 calls
        (revoke-IsLoaded stores crypto laws registry id i) d

  -- Over a store that keeps what it is given and that a failed call leaves as it was: a Host that
  -- is started again after any history of calls, failed ones included, whose draws are 16 bytes
  -- each, loads exactly the registry that it had in memory, with its Host and its store.
  pub load-run :
      (laws : IsGrantStore stores) (host : Bytes) (s : S) (registry : AuthorizationRegistry S)
      (calls : List RegistryCall)
      → load stores crypto host s ≡ ok registry
      → AreDraws calls
      → load stores crypto (run registry calls).host_device_id (run registry calls).store
        ≡ ok (run registry calls)
  load-run laws host s registry calls h d =
      (run-IsLoaded laws registry calls (load-IsLoaded stores crypto host s registry h) d).restart

  -- Over a store that keeps what it is given and that a failed call leaves as it was, after any
  -- history of calls on a loaded registry whose draws are 16 bytes each, a grant that is looked up
  -- is of this Host, for the controller that is asked for, which is not the Host and whose
  -- identity is valid, and permits viewing, with or without control.
  pub run-permitted :
      (laws : IsGrantStore stores) (host : Bytes) (s : S) (registry : AuthorizationRegistry S)
      (calls : List RegistryCall) (k : Bytes) (view : ControllerGrantView)
      → let r = run registry calls in
        load stores crypto host s ≡ ok registry
        → AreDraws calls
        → controller_grant r k ≡ some view
        → (grant : ControllerGrant) × (controller : DeviceIdentity) × (view.grant ≡ some grant)
          × (grant.controller ≡ some controller)
          × (controller.device_id ≡ k)
          × (validate_controller crypto controller ≡ ok tt)
          × (k ≢ r.host_device_id)
          × (grant.host_device_id ≡ r.host_device_id)
          × ((grant.permissions ≡ 1 ∷ []) ⊎ (grant.permissions ≡ 1 ∷ 2 ∷ []))
  unfolding controller_grant
  run-permitted laws host s registry calls k view h d g =
      let i = run-IsLoaded laws registry calls (load-IsLoaded stores crypto host s registry h) d in
      let r = run registry calls in
      stored_parts crypto r.host_device_id k view
        (get-stored crypto r.host_device_id k view r.grants_by_controller i.grants.stored g)

  perform-IsSettled :
      (registry : AuthorizationRegistry S) (call : RegistryCall)
      → IsSettled stores registry (perform registry call)
  unfolding perform
  perform-IsSettled registry (create controller permissions at draws) =
      create-IsSettled stores crypto registry controller permissions at draws
  perform-IsSettled registry (record_session k at) = record-IsSettled stores registry k at
  perform-IsSettled registry (revoke id) = revoke-IsSettled stores registry id

  -- A call on the registry that fails leaves the grants in memory as they were.
  pub perform_err :
      (registry : AuthorizationRegistry S) (call : RegistryCall) (x : AuthorizationError)
      → (perform registry call).1 ≡ err x
      → (perform registry call).0.grants_by_controller ≡ registry.grants_by_controller
  perform_err registry call x h = elim (perform-IsSettled registry call) [
    | inl (view, done) ↦ absurd (ground arith)
    | inr same ↦ same
  ]

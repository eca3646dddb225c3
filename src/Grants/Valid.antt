-- ===== src/Grants/Valid.antt =====
-- validate_stored_grant of crates/host-agent/src/authorization.rs.
use roammand.Base.{
  ◌≡◌, ◌≢◌, ◌∙◌, subst, ◌⊎◌, true, false, [], ◌∷◌, some, Bytes, bytes_eq, bytes_eq_iff, ok,
  Option-cases, Result-cases, inl, inr, arith,
}
use roammand.Validation.{DeviceIdentity}
use roammand.Grants.{
  Crypto, ControllerGrant, ControllerGrantView, validate_stored_grant, validate_controller,
  normalize_stored_permissions,
}
use roammand.Grants.Permissions.{normalize_again}

-- What a stored grant is.
pub stored_parts :
    (crypto : Crypto) (host k : Bytes) (view : ControllerGrantView)
    → validate_stored_grant crypto view host ≡ ok k
    → (grant : ControllerGrant) × (controller : DeviceIdentity) × (view.grant ≡ some grant)
      × (grant.controller ≡ some controller)
      × (controller.device_id ≡ k)
      × (validate_controller crypto controller ≡ ok tt)
      × (k ≢ host)
      × (grant.host_device_id ≡ host)
      × ((grant.permissions ≡ 1 ∷ []) ⊎ (grant.permissions ≡ 1 ∷ 2 ∷ []))
unfolding validate_stored_grant
stored_parts crypto host k view h = elim (Option-cases view.grant) [
  | inl e ↦ absurd (ground arith)
  | inr (grant, e) ↦ elim (Option-cases grant.controller) [
    | inl f ↦ absurd (ground arith)
    | inr (controller, f) ↦ elim (Result-cases (validate_controller crypto controller)) [
      | inr (x, v) ↦ absurd (ground arith)
      | inl (u, v) ↦ elim (Result-cases (normalize_stored_permissions grant.permissions)) [
        | inr (x, n) ↦ absurd (ground arith)
        | inl (normalized, n) ↦
            let permitted = (normalize_again grant.permissions normalized n).0 in
            let same = bytes_eq_iff normalized grant.permissions in
            let ours = bytes_eq_iff grant.host_device_id host in
            let own = bytes_eq_iff controller.device_id host in
            let named : controller.device_id ≡ k = ground arith in
            let other : bytes_eq controller.device_id host ≡ false = ground arith in
            let equal : bytes_eq normalized grant.permissions ≡ true = ground arith in
            let mine : bytes_eq grant.host_device_id host ≡ true = ground arith in
            let apart : k ≢ host = λ p. absurd (ground (arith, own, named ∙ p)) in
            (
              grant,
              controller,
              e,
              f,
              named,
              v,
              apart,
              ours.0 mine,
              subst (λ t. (t ≡ 1 ∷ []) ⊎ (t ≡ 1 ∷ 2 ∷ [])) (same.0 equal) permitted,
            )
      ]
    ]
  ]
]

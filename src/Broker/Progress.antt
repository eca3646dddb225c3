-- ===== src/Broker/Progress.antt =====
-- A command that the active lease covers reaches the Helper.
use roammand.Broker.Sync.{Backed, BackedIf, IsConsistent}
use roammand.Base.{ℕ, ◌+◌, ◌<◌, ◌≡◌, ◌∙◌, refl, ap, true, Option, some, ok, u64_size, arith, subst}
use roammand.Lease.{Lease, LeaseId}
use roammand.Lease.Sequence.{Authorizes, authorize_command_complete}
use roammand.Messages.{
  ClientPayload, acquire_lease, renew_lease, release_lease, start_peer, restart_peer,
  add_ice_candidate, send_secure_attention, input_command, close_peer, authenticate,
  register_helper, PrivilegedBridgeClientFrame,
}
use roammand.Broker.Core
use roammand.Broker.Core.{BrokerCore}
use roammand.Broker.Routing.{request_route}
use roammand.Broker.Session.{
  BrokerHelper, HostBrokerSession, forward, next_operation, forward_authorized, name_check,
  may_control,
}
use roammand.Broker.Forwarding.{booked}
use roammand.Broker.Handle.{handle, dispatch}

-- The operations that the broker passes on, with the permissions that they ask for.
abbrev pub Passes : {H : Type 0} → HostBrokerSession H → ClientPayload → Type 0
Passes s (start_peer value) = Unit {0}
Passes s (restart_peer value) = Unit {0}
Passes s (add_ice_candidate value) = Unit {0}
Passes s (close_peer value) = Unit {0}
Passes s (input_command value) = may_control s.permissions ≡ true
Passes s (send_secure_attention value) =
    (s.secure_attention_allowed ≡ true) × (may_control s.permissions ≡ true)
Passes s (acquire_lease value) = ⊥
Passes s (renew_lease value) = ⊥
Passes s (release_lease value) = ⊥
Passes s (authenticate value) = ⊥
Passes s (register_helper value) = ⊥

module _ {H : Type 0} (api : BrokerHelper H) where
  -- What the active lease covers is not refused.
  forward_authorized_progress :
      (s : HostBrokerSession H) (request : PrivilegedBridgeClientFrame) (now_ms : ℕ) (l : Lease)
      → IsConsistent s
      → s.broker.leases.active ≡ some l
      → request_route request ≡ ok (record { lease_id = l.id; generation = l.generation })
      → name_check api s request ≡ ok tt
      → now_ms < l.expires_at_ms
      → s.operation_sequence + 1 < u64_size
      → forward_authorized api s request now_ms
        ≡ forward api
            (booked api s l)
            request
            (record { lease_id = l.id; generation = l.generation })
  unfolding forward_authorized next_operation Core.authorize_command
  forward_authorized_progress s request now_ms l c e routed named live fits =
      let b : Backed s l = subst (BackedIf s) e c in
      let a : Authorizes s.broker.leases l.id l.generation (s.operation_sequence + 1) now_ms l =
        record {
          is_active = e;
          same_id = refl;
          same_generation = refl;
          unexpired = live;
          next_sequence = omega (arith, b.counted);
          fits = fits;
        } in
      ground (
        arith,
        authorize_command_complete s.broker.leases l.id l.generation (s.operation_sequence + 1)
            now_ms l a,
      )

  dispatch-Passes :
      (s : HostBrokerSession H) (request : PrivilegedBridgeClientFrame) (now_ms : ℕ)
      (drawn : Option LeaseId) (payload : ClientPayload)
      → Passes s payload
      → dispatch api s request now_ms drawn (some payload) ≡ forward_authorized api s request now_ms
  unfolding dispatch
  dispatch-Passes s request now_ms drawn (start_peer value) p = refl
  dispatch-Passes s request now_ms drawn (restart_peer value) p = refl
  dispatch-Passes s request now_ms drawn (add_ice_candidate value) p = refl
  dispatch-Passes s request now_ms drawn (close_peer value) p = refl
  dispatch-Passes s request now_ms drawn (input_command value) p = rw p refl
  dispatch-Passes s request now_ms drawn (send_secure_attention value) p = rw (p.0, p.1) refl
  dispatch-Passes s request now_ms drawn (acquire_lease value) p = absurd p
  dispatch-Passes s request now_ms drawn (renew_lease value) p = absurd p
  dispatch-Passes s request now_ms drawn (release_lease value) p = absurd p
  dispatch-Passes s request now_ms drawn (authenticate value) p = absurd p
  dispatch-Passes s request now_ms drawn (register_helper value) p = absurd p

  -- In a consistent session a request to start, restart or close the peer or to add a candidate,
  -- or, with the permission to control, an input command, or, if the broker allows it too, a
  -- secure attention, that names the route of the active lease before its expiry, and its
  -- controller where a name is given, is not refused by the broker: it books the next operation
  -- and asks the Helper in that state, if the counter is not at the end of a u64.
  pub handle_progress :
      (s : HostBrokerSession H) (request : PrivilegedBridgeClientFrame) (now_ms : ℕ)
      (drawn : Option LeaseId) (payload : ClientPayload) (l : Lease)
      → IsConsistent s
      → s.broker.leases.active ≡ some l
      → request.payload ≡ some payload
      → Passes s payload
      → request_route request ≡ ok (record { lease_id = l.id; generation = l.generation })
      → name_check api s request ≡ ok tt
      → now_ms < l.expires_at_ms
      → s.operation_sequence + 1 < u64_size
      → handle api s request now_ms drawn
        ≡ forward api
            (booked api s l)
            request
            (record { lease_id = l.id; generation = l.generation })
  unfolding handle
  handle_progress s request now_ms drawn payload l c e held p routed named live fits =
      ap (dispatch api s request now_ms drawn) held
      ∙ dispatch-Passes s request now_ms drawn payload p
      ∙ forward_authorized_progress s request now_ms l c e routed named live fits

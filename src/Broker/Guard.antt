-- ===== src/Broker/Guard.antt =====
-- What the Helper is asked to do, and by whose leave.
use roammand.Base.{
  ℕ, ◌+◌, ◌≡◌, ◌⊎◌, refl, inl, inr, true, Option, none, some, checked_add, Result, ok, err, is_ok,
  Result-cases, arith,
}
use roammand.Lease.{Lease, LeaseId}
use roammand.Lease.Sequence.{Authorizes}
use roammand.Messages.{
  ClientPayload, acquire_lease, renew_lease, release_lease, start_peer, restart_peer,
  add_ice_candidate, send_secure_attention, input_command, close_peer, authenticate,
  register_helper, PrivilegedBridgeClientFrame, AcquirePrivilegedLeaseRequest,
}
use roammand.Broker.Core
use roammand.Broker.Core.{BrokerCore}
use roammand.Broker.Routing.{ProxyRoute, BrokerProtocolError, parse_route, request_route}
use roammand.Broker.Session.{
  BrokerHelper, HostBrokerSession, may_control, Reply, next_operation, forward_authorized, acquire,
  name_check,
}
use roammand.Broker.Forwarding.{next_operation_ok}
use roammand.Broker.Handle.{handle, renew_route, release_route, dispatch}

module _ {H : Type 0} (api : BrokerHelper H) where
  -- A lease is active that names the frame's route exactly, has not expired, and for which this is
  -- the next operation; a start or restart names its controller.
  pub record Cleared (s : HostBrokerSession H) (request : PrivilegedBridgeClientFrame) (now_ms : ℕ)
      : Type 0 where
    pub route : ProxyRoute
    pub holder : Lease
    pub named : request_route request ≡ ok route
    pub authorizes :
        Authorizes s.broker.leases route.lease_id route.generation
          (s.operation_sequence + 1)
          now_ms
          holder
    pub name_checked : name_check api s request ≡ ok tt

  next_operation_keeps :
      (s : HostBrokerSession H) (route : ProxyRoute) (operation : Option ℕ) (now_ms : ℕ)
      → (next_operation api s route operation now_ms).0.helper ≡ s.helper
  unfolding next_operation Core.authorize_command
  next_operation_keeps s route operation now_ms = ground arith

  forward_authorized_guard :
      (s : HostBrokerSession H) (request : PrivilegedBridgeClientFrame) (now_ms : ℕ)
      → ((forward_authorized api s request now_ms).0.helper ≡ s.helper) ⊎ Cleared s request now_ms
  unfolding forward_authorized
  forward_authorized_guard s request now_ms = elim (Result-cases (name_check api s request)) [
    | inr (x, e) ↦ inl (ground arith)
    | inl (w, named) ↦ elim (Result-cases (request_route request)) [
      | inr (x, e) ↦ inl (ground arith)
      | inl (route, routed) ↦
          elim (Result-cases
            (next_operation api s route (checked_add s.operation_sequence 1) now_ms).1) [
              | inr (x, e) ↦ inl (
                  ground (
                    arith,
                    next_operation_keeps s route (checked_add s.operation_sequence 1) now_ms,
                  ))
              | inl (u, e) ↦
                  let (l, a, _) = next_operation_ok api s route now_ms u e in
                  inr (record {
                    route = route;
                    holder = l;
                    named = routed;
                    authorizes = a;
                    name_checked = named;
                  })
            ]
    ]
  ]

  -- What a request must meet before the Helper hears of it, for each kind of request.
  abbrev pub MayAsk :
      HostBrokerSession H → PrivilegedBridgeClientFrame → ℕ → Option ClientPayload → Type 0
  MayAsk s request now_ms (some (input_command value)) =
      (may_control s.permissions ≡ true) × Cleared s request now_ms
  MayAsk s request now_ms (some (send_secure_attention value)) =
      (s.secure_attention_allowed ≡ true)
      × (may_control s.permissions ≡ true)
      × Cleared s request now_ms
  MayAsk s request now_ms (some (start_peer value)) = Cleared s request now_ms
  MayAsk s request now_ms (some (restart_peer value)) = Cleared s request now_ms
  MayAsk s request now_ms (some (add_ice_candidate value)) = Cleared s request now_ms
  MayAsk s request now_ms (some (close_peer value)) = Cleared s request now_ms
  MayAsk s request now_ms (some (release_lease value)) =
      is_ok (parse_route value.lease_id value.generation) ≡ true
  MayAsk s request now_ms _ = ⊥

  Guarded :
      HostBrokerSession H
      → PrivilegedBridgeClientFrame
      → ℕ
      → Option ClientPayload
      → Reply api
      → Type 0
  Guarded s request now_ms payload r = (r.0.helper ≡ s.helper) ⊎ MayAsk s request now_ms payload

  acquire_keeps :
      (s : HostBrokerSession H) (request : PrivilegedBridgeClientFrame)
      (value : AcquirePrivilegedLeaseRequest) (now_ms : ℕ) (drawn : Option LeaseId)
      → (acquire api s request value now_ms drawn).0.helper ≡ s.helper
  unfolding acquire Core.acquire Core.begin_control
  acquire_keeps s request value now_ms drawn = ground arith

  renew_keeps :
      (s : HostBrokerSession H) (request : PrivilegedBridgeClientFrame) (now_ms : ℕ)
      (route : Result BrokerProtocolError ProxyRoute)
      → (renew_route api s request now_ms route).0.helper ≡ s.helper
  unfolding renew_route Core.renew
  renew_keeps s request now_ms route = ground arith

  release_guard :
      (s : HostBrokerSession H) (request : PrivilegedBridgeClientFrame)
      (route : Result BrokerProtocolError ProxyRoute)
      → ((release_route api s request route).0.helper ≡ s.helper) ⊎ (is_ok route ≡ true)
  unfolding release_route
  release_guard s request (ok route) = inr refl
  release_guard s request (err e) = inl refl

  dispatch_guard :
      (s : HostBrokerSession H) (request : PrivilegedBridgeClientFrame) (now_ms : ℕ)
      (drawn : Option LeaseId) (payload : Option ClientPayload)
      → Guarded s request now_ms payload (dispatch api s request now_ms drawn payload)
  unfolding Guarded dispatch
  dispatch_guard s request now_ms drawn none = inl refl
  dispatch_guard s request now_ms drawn (some (acquire_lease value)) =
      inl (acquire_keeps s request value now_ms drawn)
  dispatch_guard s request now_ms drawn (some (renew_lease value)) =
      inl (renew_keeps s request now_ms (parse_route value.lease_id value.generation))
  dispatch_guard s request now_ms drawn (some (release_lease value)) =
      release_guard s request (parse_route value.lease_id value.generation)
  dispatch_guard s request now_ms drawn (some (input_command value)) =
      ground (arith, forward_authorized_guard s request now_ms)
  dispatch_guard s request now_ms drawn (some (send_secure_attention value)) =
      ground (arith, forward_authorized_guard s request now_ms)
  dispatch_guard s request now_ms drawn (some (authenticate value)) = inl refl
  dispatch_guard s request now_ms drawn (some (register_helper value)) = inl refl
  dispatch_guard s request now_ms drawn (some other) = forward_authorized_guard s request now_ms

  -- If the Helper's state changes while the broker handles a request, the request is a release
  -- with a well-formed route, or a peer, candidate, input or secure-attention request for which an
  -- active, unexpired lease matches the route and the operation number; input and secure attention
  -- also need the control permission, and secure attention must be allowed.
  pub handle_guard :
      (s : HostBrokerSession H) (request : PrivilegedBridgeClientFrame) (now_ms : ℕ)
      (drawn : Option LeaseId)
      → ((handle api s request now_ms drawn).0.helper ≡ s.helper)
        ⊎ MayAsk s request now_ms request.payload
  unfolding handle Guarded
  handle_guard s request now_ms drawn = dispatch_guard s request now_ms drawn request.payload

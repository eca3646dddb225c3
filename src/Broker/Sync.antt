-- ===== src/Broker/Sync.antt =====
-- The broker's counters, permissions and routed session agree with its active lease.
use roammand.Base.{
  ℕ, ◌≡◌, refl, sym, true, Option, none, some, Result, ok, err, and_then-ok, arith, subst,
}
use roammand.Lease
use roammand.Route
use roammand.Route.{RouteSession}
use roammand.Lease.{Lease, LeaseId}
use roammand.Messages.{
  ClientPayload, acquire_lease, renew_lease, release_lease, send_secure_attention, input_command,
  authenticate, register_helper, PrivilegedBridgeClientFrame, PrivilegedBridgeServerFrame,
  AcquirePrivilegedLeaseRequest,
}
use roammand.Broker.Core
use roammand.Broker.Core.{BrokerCore}
use roammand.Broker.Routing.{ProxyRoute, BrokerProtocolError, parse_route}
use roammand.Broker.Session.{
  BrokerHelper, HostBrokerSession, may_control, Reply, forward, forward_authorized, acquire,
}
use roammand.Broker.Forwarding.{booked, forward_authorized_ok}
use roammand.Broker.Handle.{
  handle, renew_route, release_route, finish_release, dispatch, expire, try_event,
}

-- The generation of the session that is routed
abbrev pub routed_generation : Option RouteSession → Option ℕ
routed_generation none = none
routed_generation (some route) = some route.generation

-- What a lease that is active owes to the rest of the session.
pub record Backed {H : Type 0} (s : HostBrokerSession H) (l : Lease) : Type 0 where
  pub counted : l.last_command_sequence ≡ s.operation_sequence
  pub permitted : l.may_control_input ≡ may_control s.permissions
  pub controlled : s.broker.routes.controlled_lease ≡ true
  pub enabled : s.broker.routes.input_enabled ≡ true
  pub routed : routed_generation s.broker.routes.current ≡ some l.generation
  pub same_route : s.broker.routes.generation ≡ l.generation

abbrev pub BackedIf : {H : Type 0} → HostBrokerSession H → Option Lease → Type 0
BackedIf s none = Unit {0}
BackedIf s (some l) = Backed s l

-- Of an active lease the session has counted every command, holds the permissions, and controls
-- the session that is routed.
abbrev pub IsConsistent : {H : Type 0} → HostBrokerSession H → Type 0
IsConsistent s = BackedIf s s.broker.leases.active

module _ {H : Type 0} (api : BrokerHelper H) where
  acquire-IsConsistent :
      (s : HostBrokerSession H) (request : PrivilegedBridgeClientFrame)
      (value : AcquirePrivilegedLeaseRequest) (now_ms : ℕ) (drawn : Option LeaseId)
      (response : PrivilegedBridgeServerFrame)
      → (acquire api s request value now_ms drawn).1 ≡ ok response
      → IsConsistent (acquire api s request value now_ms drawn).0
  unfolding acquire Core.acquire Core.begin_control Lease.acquire Route.begin_control
  acquire-IsConsistent s request value now_ms drawn response h = ground arith

  renew-IsConsistent :
      (s : HostBrokerSession H) (request : PrivilegedBridgeClientFrame) (now_ms : ℕ)
      (route : Result BrokerProtocolError ProxyRoute)
      → IsConsistent s
      → IsConsistent (renew_route api s request now_ms route).0
  unfolding renew_route Core.renew Lease.renew
  renew-IsConsistent s request now_ms route c = ground arith

  finish_release-IsConsistent :
      (s : HostBrokerSession H) (route : ProxyRoute) (kept response : PrivilegedBridgeServerFrame)
      → (finish_release api s route kept).1 ≡ ok response
      → IsConsistent (finish_release api s route kept).0
  unfolding finish_release Core.release Lease.release
  finish_release-IsConsistent s route kept response h = ground arith

  release-IsConsistent :
      (s : HostBrokerSession H) (request : PrivilegedBridgeClientFrame)
      (route : Result BrokerProtocolError ProxyRoute) (response : PrivilegedBridgeServerFrame)
      → (release_route api s request route).1 ≡ ok response
      → IsConsistent (release_route api s request route).0
  unfolding release_route
  release-IsConsistent s request (err e) response h = cc
  release-IsConsistent s request (ok route) response h =
      let (kept, _, h', e) =
        and_then-ok (forward api s request route) (λ t r. finish_release api t route r) h in
      subst (λ (c : Reply api). IsConsistent c.0) (sym e)
        (finish_release-IsConsistent (forward api s request route).0 route kept response h')

  booked-IsConsistent :
      (s : HostBrokerSession H) (l : Lease) (helper : H)
      → s.broker.leases.active ≡ some l
      → IsConsistent s
      → IsConsistent (record (booked api s l) { helper = helper })
  booked-IsConsistent s l helper e c =
      let b : Backed s l = subst (BackedIf s) e c in
      record {
        counted = refl;
        permitted = b.permitted;
        controlled = b.controlled;
        enabled = b.enabled;
        routed = b.routed;
        same_route = b.same_route;
      }

  forwarded-IsConsistent :
      (s : HostBrokerSession H) (request : PrivilegedBridgeClientFrame) (now_ms : ℕ)
      (response : PrivilegedBridgeServerFrame)
      → IsConsistent s
      → (forward_authorized api s request now_ms).1 ≡ ok response
      → IsConsistent (forward_authorized api s request now_ms).0
  forwarded-IsConsistent s request now_ms response c h =
      let (route, l, f) = forward_authorized_ok api s request now_ms response h in
      let after = (forward_authorized api s request now_ms).0 in
      subst IsConsistent (sym f.books)
        (booked-IsConsistent s l after.helper f.authorizes.is_active c)

  dispatch-IsConsistent :
      (s : HostBrokerSession H) (request : PrivilegedBridgeClientFrame) (now_ms : ℕ)
      (drawn : Option LeaseId) (payload : Option ClientPayload)
      (response : PrivilegedBridgeServerFrame)
      → IsConsistent s
      → (dispatch api s request now_ms drawn payload).1 ≡ ok response
      → IsConsistent (dispatch api s request now_ms drawn payload).0
  unfolding dispatch
  dispatch-IsConsistent s request now_ms drawn none response c h = cc
  dispatch-IsConsistent s request now_ms drawn (some (acquire_lease value)) response c h =
      acquire-IsConsistent s request value now_ms drawn response h
  dispatch-IsConsistent s request now_ms drawn (some (renew_lease value)) response c h =
      renew-IsConsistent s request now_ms (parse_route value.lease_id value.generation) c
  dispatch-IsConsistent s request now_ms drawn (some (release_lease value)) response c h =
      release-IsConsistent s request (parse_route value.lease_id value.generation) response h
  dispatch-IsConsistent s request now_ms drawn (some (input_command value)) response c h =
      ground (arith, forwarded-IsConsistent s request now_ms response c)
  dispatch-IsConsistent s request now_ms drawn (some (send_secure_attention value)) response c h =
      ground (arith, forwarded-IsConsistent s request now_ms response c)
  dispatch-IsConsistent s request now_ms drawn (some (authenticate value)) response c h = cc
  dispatch-IsConsistent s request now_ms drawn (some (register_helper value)) response c h = cc
  dispatch-IsConsistent s request now_ms drawn (some other) response c h =
      forwarded-IsConsistent s request now_ms response c h

  -- A request that the broker answers keeps the session consistent: while a lease is active, the
  -- operation counter is the number of the last authorized command, the permission to control is
  -- that of the lease, a session is routed, its generation and that of the routing machine are the
  -- lease's, control has begun and input is enabled.
  pub handle-IsConsistent :
      (s : HostBrokerSession H) (request : PrivilegedBridgeClientFrame) (now_ms : ℕ)
      (drawn : Option LeaseId) (response : PrivilegedBridgeServerFrame)
      → IsConsistent s
      → (handle api s request now_ms drawn).1 ≡ ok response
      → IsConsistent (handle api s request now_ms drawn).0
  unfolding handle
  handle-IsConsistent s request now_ms drawn response c h =
      dispatch-IsConsistent s request now_ms drawn request.payload response c h

  expire-IsConsistent :
      (s : HostBrokerSession H) (now_ms : ℕ) → IsConsistent s → IsConsistent (expire api s now_ms).0
  unfolding expire Lease.expire
  expire-IsConsistent s now_ms c = ground arith

  try_event-IsConsistent :
      (s : HostBrokerSession H) → IsConsistent s → IsConsistent (try_event api s).0
  unfolding try_event
  try_event-IsConsistent s c = ground arith

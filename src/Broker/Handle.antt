-- ===== src/Broker/Handle.antt =====
-- `handle`, `try_event`, `expire` and `fail_closed` of `HostBrokerSession` (broker.rs), and the loop
-- of `run_host_session` (runtime.rs) that calls them.
use roammand.Base.{
  ℕ, Bool, true, false, ◌||◌, not, Option, none, some, [], is_some, Result, ok, err, map_err, Call,
  and_then, if◌then◌else◌,
}
use roammand.Lease
use roammand.Lease.{Lease, LeaseId}
use roammand.Messages.{
  ClientPayload, acquire_lease, renew_lease, release_lease, start_peer, restart_peer,
  add_ice_candidate, send_secure_attention, input_command, close_peer, authenticate,
  register_helper, PrivilegedBridgeClientFrame, PrivilegedBridgeServerFrame,
}
use roammand.Broker.Core
use roammand.Broker.Core.{BrokerCore}
use roammand.Broker.Routing.{
  ProxyRoute, BrokerProtocolError, invalid_message, lease_rejected, permission_denied,
  stale_response, parse_route, response_route, route_eq, lease_response,
}
use roammand.Broker.Session.{
  BrokerHelper, HostBrokerSession, may_control, Reply, forward, forward_authorized, acquire,
}

module _ {H : Type 0} (api : BrokerHelper H) where
  open api use {exchange, try_event as poll, fail_closed as helper_fail_closed}

  unfoldable pub renew_route :
      HostBrokerSession H
      → PrivilegedBridgeClientFrame
      → ℕ
      → Result BrokerProtocolError ProxyRoute
      → Reply api
  renew_route s request now_ms (err e) = (s, err e)
  renew_route s request now_ms (ok route) =
      let (broker, r) = Core.renew s.broker route.lease_id route.generation now_ms in
      and_then (record s { broker = broker }, map_err lease_rejected r)
        λ s' lease. (s', ok (lease_response request lease s'.permissions))

  -- After the Helper has answered: release the lease, and forget the permissions.
  unfoldable pub finish_release :
      HostBrokerSession H → ProxyRoute → PrivilegedBridgeServerFrame → Reply api
  finish_release s route response =
      let (broker, r) = Core.release s.broker route.lease_id route.generation in
      and_then (record s { broker = broker }, map_err lease_rejected r)
        λ s' _. (record s' { permissions = [] }, ok response)

  unfoldable pub release_route :
      HostBrokerSession H
      → PrivilegedBridgeClientFrame
      → Result BrokerProtocolError ProxyRoute
      → Reply api
  unfolding finish_release
  release_route s request (err e) = (s, err e)
  release_route s request (ok route) =
      and_then (forward api s request route) λ s' response. finish_release s' route response

  unfoldable pub handle_payload :
      HostBrokerSession H
      → PrivilegedBridgeClientFrame
      → ℕ
      → Option LeaseId
      → ClientPayload
      → Reply api
  unfolding renew_route release_route
  handle_payload s request now_ms drawn (acquire_lease value) =
      acquire api s request value now_ms drawn
  handle_payload s request now_ms drawn (renew_lease value) =
      renew_route s request now_ms (parse_route value.lease_id value.generation)
  handle_payload s request now_ms drawn (release_lease value) =
      release_route s request (parse_route value.lease_id value.generation)
  handle_payload s request now_ms drawn (input_command value) =
      if not (may_control s.permissions)
      then (s, err permission_denied)
      else forward_authorized api s request now_ms
  handle_payload s request now_ms drawn (send_secure_attention value) =
      if not s.secure_attention_allowed || not (may_control s.permissions)
      then (s, err permission_denied)
      else forward_authorized api s request now_ms
  handle_payload s request now_ms drawn (start_peer value) = forward_authorized api s request now_ms
  handle_payload s request now_ms drawn (restart_peer value) =
      forward_authorized api s request now_ms
  handle_payload s request now_ms drawn (add_ice_candidate value) =
      forward_authorized api s request now_ms
  handle_payload s request now_ms drawn (close_peer value) = forward_authorized api s request now_ms
  handle_payload s request now_ms drawn (authenticate value) = (s, err invalid_message)
  handle_payload s request now_ms drawn (register_helper value) = (s, err invalid_message)

  unfoldable pub dispatch :
      HostBrokerSession H
      → PrivilegedBridgeClientFrame
      → ℕ
      → Option LeaseId
      → Option ClientPayload
      → Reply api
  unfolding handle_payload
  dispatch s request now_ms drawn none = (s, err invalid_message)
  dispatch s request now_ms drawn (some payload) = handle_payload s request now_ms drawn payload

  unfoldable pub handle :
      HostBrokerSession H → PrivilegedBridgeClientFrame → ℕ → Option LeaseId → Reply api
  unfolding dispatch
  handle s request now_ms drawn = dispatch s request now_ms drawn request.payload

  abbrev Polled : Type 0
  Polled = Call (HostBrokerSession H) BrokerProtocolError (Option PrivilegedBridgeServerFrame)

  -- An event must name the active lease.
  check_event : HostBrokerSession H → PrivilegedBridgeServerFrame → Option Lease → Polled
  check_event s response none = (s, err lease_rejected)
  check_event s response (some active) = elim (response_route response) [
    | err e ↦ (s, err e)
    | ok route ↦
        if route_eq route (record { lease_id = active.id; generation = active.generation })
        then (s, ok (some response))
        else (record s { helper = helper_fail_closed s.helper }, err stale_response)
  ]

  polled_event : HostBrokerSession H → Option PrivilegedBridgeServerFrame → Polled
  unfolding check_event
  polled_event s none = (s, ok none)
  polled_event s (some response) = check_event s response s.broker.leases.active

  unfoldable pub try_event : HostBrokerSession H → Polled
  unfolding polled_event
  try_event s =
      and_then (let (h, r) = poll s.helper in (record s { helper = h }, r))
        λ s' event. polled_event s' event

  unfoldable pub expire : HostBrokerSession H → ℕ → HostBrokerSession H × Bool
  expire s now_ms =
      let (leases, expired) = Lease.expire s.broker.leases now_ms in
      let s' : HostBrokerSession H = record s { broker = record s.broker { leases = leases } } in
      if is_some expired
      then (record s' { helper = helper_fail_closed s'.helper; permissions = [] }, true)
      else (s', false)

  unfoldable pub fail_closed : HostBrokerSession H → HostBrokerSession H
  fail_closed s = record s {
    helper = helper_fail_closed s.helper;
    broker = (Core.disconnect_host s.broker).0;
    permissions = [];
  }

-- ===== src/Broker/Session.antt =====
-- `HostBrokerSession` of broker.rs: what `handle` is made of. The Helper is a trait object there:
-- here a state with its three operations. `drawn` is what the random source gives if the call asks
-- for a lease.
use roammand.Base.{
  ℕ, Bool, ◌||◌, not, Option, none, some, List, [], bytes_eq, length, any, ◌==◌, checked_add,
  Result, ok, err, map_err, Call, and_then, ◌>>◌, if◌then◌else◌,
}
use roammand.Lease.{Lease, LeaseId}
use roammand.Messages.{
  AcquirePrivilegedLeaseRequest, PrivilegedBridgeClientFrame, PrivilegedBridgeServerFrame,
  control_input,
}
use roammand.Broker.Core.{BrokerCore}
use roammand.Broker.Core
use roammand.Broker.Routing.{
  ProxyRoute, BrokerProtocolError, invalid_message, lease_rejected, stale_response, request_route,
  response_route, route_eq, request_controller_display_name, lease_response,
}

pub record BrokerHelper (H : Type 0) : Type 0 where
  pub exchange :
      H → PrivilegedBridgeClientFrame → Call H BrokerProtocolError PrivilegedBridgeServerFrame
  pub try_event : H → Call H BrokerProtocolError (Option PrivilegedBridgeServerFrame)
  pub fail_closed : H → H

pub record HostBrokerSession (H : Type 0) : Type 0 where
  pub broker : BrokerCore
  pub helper : H
  pub permissions : List ℕ
  pub operation_sequence : ℕ
  pub secure_attention_allowed : Bool

-- HostBrokerSession::new and with_secure_attention
unfoldable pub new : {H : Type 0} → BrokerCore → H → Bool → HostBrokerSession H
new broker helper allowed = record {
  broker = broker;
  helper = helper;
  permissions = [];
  operation_sequence = 0;
  secure_attention_allowed = allowed;
}

-- `contains(&(SessionPermission::ControlInput as i32))`
unfoldable pub may_control : List ℕ → Bool
may_control permissions = any (λ p. p == control_input) permissions

module _ {H : Type 0} (api : BrokerHelper H) where
  open api use {exchange, try_event as poll, fail_closed as helper_fail_closed}

  abbrev pub Reply : Type 0
  Reply = Call (HostBrokerSession H) BrokerProtocolError PrivilegedBridgeServerFrame

  unfoldable pub stale : HostBrokerSession H → Reply
  stale s = (record s { helper = helper_fail_closed s.helper }, err stale_response)

  -- The test on the Helper's response: its route is read only if the ids match.
  unfoldable pub check_response :
      HostBrokerSession H
      → PrivilegedBridgeClientFrame
      → ProxyRoute
      → PrivilegedBridgeServerFrame
      → Reply
  unfolding stale
  check_response s request route response =
      if not (bytes_eq response.request_id request.request_id)
        || not (response.sequence == request.sequence)
      then stale s
      else elim (response_route response) [
        | err e ↦ (s, err e)
        | ok actual ↦ if route_eq actual route then (s, ok response) else stale s
      ]

  unfoldable pub forward : HostBrokerSession H → PrivilegedBridgeClientFrame → ProxyRoute → Reply
  unfolding check_response
  forward s request route =
      and_then (let (h, r) = exchange s.helper request in (record s { helper = h }, r))
        λ s' response. check_response s' request route response

  -- The controller name of a start or restart must be that of the active lease.
  unfoldable pub name_check :
      HostBrokerSession H → PrivilegedBridgeClientFrame → Result BrokerProtocolError (Unit {0})
  name_check s request = elim (request_controller_display_name request) [
    | none ↦ ok tt
    | some name ↦ elim s.broker.leases.active [
      | none ↦ err lease_rejected
      | some lease ↦
          if bytes_eq name lease.controller_display_name then ok tt else err invalid_message
    ]
  ]

  -- The operation number is written before the lease manager is asked.
  unfoldable pub authorized :
      HostBrokerSession H
      → ProxyRoute
      → ℕ
      → ℕ
      → Call (HostBrokerSession H) BrokerProtocolError (Unit {0})
  authorized s route operation now_ms =
      let (broker, r) =
        Core.authorize_command s.broker route.lease_id route.generation operation now_ms in
      (record s { broker = broker; operation_sequence = operation }, map_err lease_rejected r)

  unfoldable pub next_operation :
      HostBrokerSession H
      → ProxyRoute
      → Option ℕ
      → ℕ
      → Call (HostBrokerSession H) BrokerProtocolError (Unit {0})
  unfolding authorized
  next_operation s route none now_ms = (s, err lease_rejected)
  next_operation s route (some operation) now_ms = authorized s route operation now_ms

  unfoldable pub forward_authorized : HostBrokerSession H → PrivilegedBridgeClientFrame → ℕ → Reply
  unfolding name_check next_operation
  forward_authorized s request now_ms =
      and_then (s, (do name_check s request; request_route request))
        λ s' route.
          and_then (next_operation s' route (checked_add s'.operation_sequence 1) now_ms)
            λ s'' _. forward s'' request route

  finish_acquire : HostBrokerSession H → PrivilegedBridgeClientFrame → List ℕ → Lease → Reply
  finish_acquire s request permissions lease =
      let (broker, r) = Core.begin_control s.broker lease.generation in
      and_then (record s { broker = broker }, map_err lease_rejected r)
        λ s' _. (
          record s' { permissions = permissions; operation_sequence = 0 },
          ok (lease_response request lease permissions),
        )

  unfoldable pub acquire :
      HostBrokerSession H
      → PrivilegedBridgeClientFrame
      → AcquirePrivilegedLeaseRequest
      → ℕ
      → Option LeaseId
      → Reply
  unfolding finish_acquire
  acquire s request value now_ms drawn =
      if not (length value.session_id == 16)
      then (s, err invalid_message)
      else let (broker, r) =
          Core.acquire s.broker
            (record {
              session_id = value.session_id;
              generation = value.generation;
              controller_display_name = value.controller_display_name;
              may_control_input = may_control value.permissions;
            })
            now_ms drawn in
        and_then (record s { broker = broker }, map_err lease_rejected r)
          λ s' lease. finish_acquire s' request value.permissions lease

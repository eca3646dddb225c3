-- ===== src/Broker/Core.antt =====
-- `BrokerCore` of broker.rs: the lease manager and the routed session side by side.
use roammand.Base.{ℕ, Bool, Option, List, Bytes, Call}
use roammand.Lease
use roammand.Lease.{LeaseId, AcquireLease, LeaseManager, LeaseError}
use roammand.Route
use roammand.Route.{SessionStateMachine, RouteEvent, SessionAction, SessionError}

pub record BrokerCore : Type 0 where
  pub leases : LeaseManager
  pub routes : SessionStateMachine

-- A call on one of the two parts.
abbrev on_leases {ℓ} : {A : Type ℓ} → BrokerCore → LeaseManager × A → BrokerCore × A
on_leases b (leases, r) = (record b { leases = leases }, r)

abbrev on_routes {ℓ} : {A : Type ℓ} → BrokerCore → SessionStateMachine × A → BrokerCore × A
on_routes b (routes, r) = (record b { routes = routes }, r)

-- BrokerCore::new
unfoldable pub new : Bytes → BrokerCore
unfolding Lease.new Route.new
new instance_id = record { leases = Lease.new instance_id; routes = Route.new }

unfoldable pub connect_host : BrokerCore → ℕ → Call BrokerCore LeaseError (Unit {0})
connect_host b generation = on_leases b (Lease.connect_host b.leases generation)

unfoldable pub disconnect_host : BrokerCore → BrokerCore × Bool
disconnect_host b = on_leases b (Lease.disconnect_host b.leases)

unfoldable pub observe_route :
    BrokerCore → RouteEvent → Call BrokerCore SessionError (List SessionAction)
observe_route b e = on_routes b (Route.apply b.routes e)

unfoldable pub acquire :
    BrokerCore → AcquireLease → ℕ → Option LeaseId → Call BrokerCore LeaseError Lease.Lease
acquire b request now_ms drawn = on_leases b (Lease.acquire b.leases request now_ms drawn)

unfoldable pub renew : BrokerCore → LeaseId → ℕ → ℕ → Call BrokerCore LeaseError Lease.Lease
renew b id generation now_ms = on_leases b (Lease.renew b.leases id generation now_ms)

unfoldable pub authorize_command :
    BrokerCore → LeaseId → ℕ → ℕ → ℕ → Call BrokerCore LeaseError (Unit {0})
authorize_command b id generation sequence now_ms =
    on_leases b (Lease.authorize_command b.leases id generation sequence now_ms)

unfoldable pub release : BrokerCore → LeaseId → ℕ → Call BrokerCore LeaseError Bool
release b id generation = on_leases b (Lease.release b.leases id generation)

unfoldable pub begin_control : BrokerCore → ℕ → Call BrokerCore SessionError (Unit {0})
begin_control b generation = on_routes b (Route.begin_control b.routes generation)

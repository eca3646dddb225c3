-- ===== src/Helper/Gate.antt =====
-- `HelperLeaseGate` of helper.rs: the route that the broker has issued.
use roammand.Base.{
  ℕ, Bool, ◌||◌, ◌&&◌, Option, none, some, bytes_eq, leb, ◌==◌, is_some, ok, err, Result, Call,
  if◌then◌else◌,
}
use roammand.Lease.{LeaseId}
use roammand.Broker.Routing.{ProxyRoute}

pub data HelperError : Type 0 where
  lease_required stale_route : HelperError

pub record HelperLeaseGate : Type 0 where
  pub route : Option ProxyRoute

-- HelperLeaseGate::new
unfoldable pub new : HelperLeaseGate
new = record { route = none }

not_newer : Option ProxyRoute → ProxyRoute → Bool
not_newer none route = route.generation == 0
not_newer (some current) route = route.generation == 0 || leb route.generation current.generation

unfoldable pub attach : HelperLeaseGate → ProxyRoute → Call HelperLeaseGate HelperError (Unit {0})
unfolding not_newer
attach g route =
    if not_newer g.route route then (g, err stale_route) else (record { route = some route }, ok tt)

unfoldable pub authorize : HelperLeaseGate → LeaseId → ℕ → Result HelperError (Unit {0})
authorize g lease_id generation = elim g.route [
  | none ↦ err lease_required
  | some route ↦
      if bytes_eq route.lease_id lease_id && route.generation == generation
      then ok tt
      else err stale_route
]

unfoldable pub release : HelperLeaseGate → HelperLeaseGate × Bool
release g = (record { route = none }, is_some g.route)

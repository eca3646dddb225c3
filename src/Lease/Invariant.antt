-- ===== src/Lease/Invariant.antt =====
-- What holds of the lease manager after any history of calls.
use roammand.Base.{
  ℕ, ◌+◌, ◌≤◌, ◌<◌, ◌≡◌, Option, none, some, List, [], ◌∷◌, Bytes, bytes_eq, false, u64_size, ok,
  arith,
}
use roammand.Lease.{
  AcquireLease, Lease, LeaseManager, new, connect_host, disconnect_host, acquire, renew,
  authorize_command, release, close, expire, zero_id, lease_duration_ms, validate_controller_name,
}
use roammand.Lease.Trace.{
  Operation, connects, disconnects, acquires, renews, commands, releases, closes, expires, step,
  run,
}

-- A lease of the host connection of generation `host`: it outlives its last renewal by at most one
-- term, its times fit a u64, and its identifier and controller name passed their checks.
pub record LeaseValid (host : Option ℕ) (l : Lease) : Type 0 where
  pub of_host : host ≡ some l.generation
  pub issued : l.issued_at_ms ≤ l.last_renewed_at_ms
  pub live : l.last_renewed_at_ms < l.expires_at_ms
  pub one_term : l.expires_at_ms ≤ l.last_renewed_at_ms + lease_duration_ms
  pub fits : l.expires_at_ms < u64_size
  pub sequence_fits : l.last_command_sequence < u64_size
  pub random_id : bytes_eq l.id zero_id ≡ false
  pub named : validate_controller_name l.controller_display_name ≡ ok tt

abbrev pub ActiveValid : Option ℕ → Option Lease → Type 0
ActiveValid host none = Unit {0}
ActiveValid host (some l) = LeaseValid host l

abbrev pub HostValid : Option ℕ → Type 0
HostValid none = Unit {0}
HostValid (some generation) = 0 < generation

pub record IsValid (m : LeaseManager) : Type 0 where
  pub host : HostValid m.host_generation
  pub lease : ActiveValid m.host_generation m.active

module _ (m : LeaseManager) (v : IsValid m) where
  connect_host-IsValid : (generation : ℕ) → IsValid (connect_host m generation).0
  unfolding connect_host
  connect_host-IsValid generation = ground arith

  disconnect_host-IsValid : IsValid (disconnect_host m).0
  unfolding disconnect_host
  disconnect_host-IsValid = ground arith

  expire-IsValid : (now_ms : ℕ) → IsValid (expire m now_ms).0
  unfolding expire
  expire-IsValid now_ms = ground arith

  release-IsValid : (id : Bytes) (generation : ℕ) → IsValid (release m id generation).0
  unfolding release
  release-IsValid id generation = ground arith

  close-IsValid : (id : Bytes) (generation : ℕ) → IsValid (close m id generation).0
  unfolding close
  close-IsValid id generation = ground arith

  renew-IsValid : (id : Bytes) (generation now_ms : ℕ) → IsValid (renew m id generation now_ms).0
  unfolding renew
  renew-IsValid id generation now_ms = ground arith

  authorize_command-IsValid :
      (id : Bytes) (generation sequence now_ms : ℕ)
      → IsValid (authorize_command m id generation sequence now_ms).0
  unfolding authorize_command
  authorize_command-IsValid id generation sequence now_ms = ground arith

acquire-IsValid :
    (m : LeaseManager) (r : AcquireLease) (now_ms : ℕ) (drawn : Option Bytes)
    → IsValid m
    → IsValid (acquire m r now_ms drawn).0
unfolding acquire
acquire-IsValid m r now_ms drawn v = ground arith

-- Every call keeps the manager valid, whatever its arguments and whether or not it fails.
pub step-IsValid : (m : LeaseManager) (o : Operation) → IsValid m → IsValid (step m o)
unfolding step
step-IsValid m (connects generation) v = connect_host-IsValid m v generation
step-IsValid m disconnects v = disconnect_host-IsValid m v
step-IsValid m (acquires request now_ms drawn) v = acquire-IsValid m request now_ms drawn v
step-IsValid m (renews id generation now_ms) v = renew-IsValid m v id generation now_ms
step-IsValid m (commands id generation sequence now_ms) v =
    authorize_command-IsValid m v id generation sequence now_ms
step-IsValid m (releases id generation) v = release-IsValid m v id generation
step-IsValid m (closes id generation) v = close-IsValid m v id generation
step-IsValid m (expires now_ms) v = expire-IsValid m v now_ms

run-IsValid : (m : LeaseManager) (os : List Operation) → IsValid m → IsValid (run m os)
unfolding run
run-IsValid m [] v = v
run-IsValid m (o ∷ os) v = run-IsValid (step m o) os (step-IsValid m o v)

new-IsValid : (instance_id : Bytes) → IsValid (new instance_id)
unfolding new
new-IsValid instance_id = record { host = tt; lease = tt }

-- After any history of calls on a new manager, an active lease belongs to the connected host's
-- generation, expires later than its last renewal by at most one term of 15 s, has times and a
-- sequence number that fit a u64, a nonzero identifier and an accepted controller name.
pub history-IsValid :
    (instance_id : Bytes) (os : List Operation) → IsValid (run (new instance_id) os)
history-IsValid instance_id os = run-IsValid (new instance_id) os (new-IsValid instance_id)

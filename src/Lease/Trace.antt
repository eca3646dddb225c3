-- ===== src/Lease/Trace.antt =====
-- The calls that the owner of a `LeaseManager` can make, and histories of them.
use roammand.Base.{ℕ, Bool, true, false, Option, List, [], ◌∷◌, is_ok, if◌then◌else◌}
use roammand.Lease.{
  LeaseId, AcquireLease, LeaseManager, connect_host, disconnect_host, acquire, renew,
  authorize_command, release, close, expire,
}

pub data Operation : Type 0 where
  connects : ℕ → Operation
  disconnects : Operation
  acquires : AcquireLease → ℕ → Option LeaseId → Operation
  renews : LeaseId → ℕ → ℕ → Operation
  commands : LeaseId → ℕ → ℕ → ℕ → Operation
  releases closes : LeaseId → ℕ → Operation
  expires : ℕ → Operation

unfoldable pub step : LeaseManager → Operation → LeaseManager
step m (connects generation) = (connect_host m generation).0
step m disconnects = (disconnect_host m).0
step m (acquires request now_ms drawn) = (acquire m request now_ms drawn).0
step m (renews id generation now_ms) = (renew m id generation now_ms).0
step m (commands id generation sequence now_ms) =
    (authorize_command m id generation sequence now_ms).0
step m (releases id generation) = (release m id generation).0
step m (closes id generation) = (close m id generation).0
step m (expires now_ms) = (expire m now_ms).0

unfoldable pub run : LeaseManager → List Operation → LeaseManager
run m [] = m
run m (o ∷ os) = run (step m o) os

-- No new lease is acquired in the history.
abbrev pub is_acquire : Operation → Bool
is_acquire (acquires _ _ _) = true
is_acquire _ = false

abbrev pub is_command : Operation → Bool
is_command (commands _ _ _ _) = true
is_command _ = false

abbrev pub accepted_by : LeaseManager → Operation → List ℕ → List ℕ
accepted_by m (commands id generation sequence now_ms) rest =
    if is_ok (authorize_command m id generation sequence now_ms).1 then sequence ∷ rest else rest
accepted_by m _ rest = rest

-- The sequence numbers of the commands that the history authorizes, in order.
unfoldable pub accepted : LeaseManager → List Operation → List ℕ
accepted m [] = []
accepted m (o ∷ os) = accepted_by m o (accepted (step m o) os)

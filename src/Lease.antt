-- ===== src/Lease.antt =====
-- crates/privileged-bridge/src/lease.rs: the one ephemeral lease of the privileged bridge.
-- A method on `&mut self` returns the manager that it leaves beside its result.
pub mod Trace
pub mod Invariant
pub mod Sequence
pub mod Terms
use roammand.Base.{
  ℕ, Bool, true, false, ◌||◌, not, Option, none, some, [], ◌∷◌, Bytes, bytes_eq, Text, text_len,
  is_control, is_empty, any, ltb, leb, ◌==◌, is_some, checked_add, Result, ok, err, ok_or, Call,
  ◌>>=◌, ◌>>◌, if◌then◌else◌,
}

abbrev pub renew_interval_ms : ℕ
renew_interval_ms = 5000

abbrev pub lease_duration_ms : ℕ
lease_duration_ms = 15000

abbrev pub max_controller_name_bytes : ℕ
max_controller_name_bytes = 128

-- `LeaseId` and `SessionId` wrap `[u8; 16]`.
abbrev pub LeaseId : Type 0
LeaseId = Bytes

abbrev pub SessionId : Type 0
SessionId = Bytes

pub record AcquireLease : Type 0 where
  pub session_id : SessionId
  pub generation : ℕ
  pub controller_display_name : Text
  pub may_control_input : Bool

pub record Lease : Type 0 where
  pub id : LeaseId
  pub session_id : SessionId
  pub generation : ℕ
  pub issued_at_ms : ℕ
  pub expires_at_ms : ℕ
  pub last_renewed_at_ms : ℕ
  pub last_command_sequence : ℕ
  pub controller_display_name : Text
  pub may_control_input : Bool

pub data LeaseError : Type 0 where
  host_disconnected host_already_connected lease_already_active lease_not_active : LeaseError
  lease_expired stale_generation lease_id_mismatch invalid_lease_id : LeaseError
  random_unavailable renewed_too_soon invalid_sequence invalid_controller_name : LeaseError
  timestamp_overflow : LeaseError

pub record LeaseManager : Type 0 where
  pub broker_instance_id : Bytes
  pub host_generation : Option ℕ
  pub active : Option Lease
  pub last_released : Option (LeaseId × ℕ)

-- LeaseManager::new
unfoldable pub new : Bytes → LeaseManager
new instance_id = record {
  broker_instance_id = instance_id;
  host_generation = none;
  active = none;
  last_released = none;
}

unfoldable pub validate_active_ref : Lease → LeaseId → ℕ → Result LeaseError (Unit {0})
validate_active_ref lease id generation =
    if not (generation == lease.generation)
    then err stale_generation
    else if not (bytes_eq id lease.id)
    then err lease_id_mismatch
    else ok tt

unfoldable pub validate_controller_name : Text → Result LeaseError (Unit {0})
validate_controller_name value =
    if is_empty value || ltb max_controller_name_bytes (text_len value) || any is_control value
    then err invalid_controller_name
    else ok tt

freeze : Option Lease → LeaseManager → LeaseManager × Bool
freeze none m = (m, false)
freeze (some lease) m =
    (record m { active = none; last_released = some (lease.id, lease.generation) }, true)

unfoldable pub freeze_active : LeaseManager → LeaseManager × Bool
unfolding freeze
freeze_active m = freeze m.active m

unfoldable pub connect_host : LeaseManager → ℕ → Call LeaseManager LeaseError (Unit {0})
connect_host m generation =
    if is_some m.host_generation
    then (m, err host_already_connected)
    else if generation == 0
    then (m, err stale_generation)
    else (record m { host_generation = some generation }, ok tt)

unfoldable pub disconnect_host : LeaseManager → LeaseManager × Bool
unfolding freeze_active
disconnect_host m = freeze_active (record m { host_generation = none })

-- [0; 16]
abbrev pub zero_id : LeaseId
zero_id = 0 ∷ 0 ∷ 0 ∷ 0 ∷ 0 ∷ 0 ∷ 0 ∷ 0 ∷ 0 ∷ 0 ∷ 0 ∷ 0 ∷ 0 ∷ 0 ∷ 0 ∷ 0 ∷ []

-- `SystemLeaseIdSource` over what `getrandom::fill` gives at this call, `none` for its failure.
unfoldable pub next_lease_id : Option LeaseId → Result LeaseError LeaseId
next_lease_id drawn = ok_or drawn random_unavailable

-- The checks of `acquire`, in their order, up to the new lease.
granted : LeaseManager → AcquireLease → ℕ → Option LeaseId → Result LeaseError Lease
unfolding validate_controller_name next_lease_id
granted m request now_ms drawn = do
  host_generation ← ok_or m.host_generation host_disconnected
  if is_some m.active then err lease_already_active else ok tt
  if not (request.generation == host_generation) then err stale_generation else ok tt
  validate_controller_name request.controller_display_name
  id ← next_lease_id drawn
  if bytes_eq id zero_id then err invalid_lease_id else ok tt
  expires_at_ms ← ok_or (checked_add now_ms lease_duration_ms) timestamp_overflow
  ok (record {
    id = id;
    session_id = request.session_id;
    generation = request.generation;
    issued_at_ms = now_ms;
    expires_at_ms = expires_at_ms;
    last_renewed_at_ms = now_ms;
    last_command_sequence = 0;
    controller_display_name = request.controller_display_name;
    may_control_input = request.may_control_input;
  })

install : LeaseManager → Result LeaseError Lease → Call LeaseManager LeaseError Lease
install m (ok lease) = (record m { active = some lease; last_released = none }, ok lease)
install m (err e) = (m, err e)

unfoldable pub acquire :
    LeaseManager → AcquireLease → ℕ → Option LeaseId → Call LeaseManager LeaseError Lease
unfolding granted install
acquire m request now_ms drawn = install m (granted m request now_ms drawn)

-- The last two steps of `renew`: `last_renewed_at_ms` is written before the checked addition.
extend : LeaseManager → Lease → ℕ → Option ℕ → Call LeaseManager LeaseError Lease
extend m lease now_ms none = (
  record m { active = some (record lease { last_renewed_at_ms = now_ms }) },
  err timestamp_overflow,
)
extend m lease now_ms (some expires_at_ms) =
    let renewed = record lease { last_renewed_at_ms = now_ms; expires_at_ms = expires_at_ms } in
    (record m { active = some renewed }, ok renewed)

renew_due : LeaseManager → Lease → ℕ → Option ℕ → Call LeaseManager LeaseError Lease
unfolding extend
renew_due m lease now_ms none = (m, err timestamp_overflow)
renew_due m lease now_ms (some next_renewal) =
    if ltb now_ms next_renewal
    then (m, err renewed_too_soon)
    else extend m lease now_ms (checked_add now_ms lease_duration_ms)

renew_active :
    LeaseManager → Lease → ℕ → Result LeaseError (Unit {0}) → Call LeaseManager LeaseError Lease
unfolding renew_due freeze_active
renew_active m lease now_ms (err e) = (m, err e)
renew_active m lease now_ms (ok _) =
    if leb lease.expires_at_ms now_ms
    then ((freeze_active m).0, err lease_expired)
    else renew_due m lease now_ms (checked_add lease.last_renewed_at_ms renew_interval_ms)

unfoldable pub renew : LeaseManager → LeaseId → ℕ → ℕ → Call LeaseManager LeaseError Lease
unfolding renew_active validate_active_ref
renew m id generation now_ms = elim m.active [
  | none ↦ (m, err lease_not_active)
  | some lease ↦ renew_active m lease now_ms (validate_active_ref lease id generation)
]

command_next : LeaseManager → Lease → ℕ → Option ℕ → Call LeaseManager LeaseError (Unit {0})
command_next m lease sequence none = (m, err invalid_sequence)
command_next m lease sequence (some expected) =
    if not (sequence == expected)
    then (m, err invalid_sequence)
    else (record m { active = some (record lease { last_command_sequence = sequence }) }, ok tt)

command_active :
    LeaseManager
    → Lease
    → ℕ
    → ℕ
    → Result LeaseError (Unit {0})
    → Call LeaseManager LeaseError (Unit {0})
unfolding command_next freeze_active
command_active m lease sequence now_ms (err e) = (m, err e)
command_active m lease sequence now_ms (ok _) =
    if leb lease.expires_at_ms now_ms
    then ((freeze_active m).0, err lease_expired)
    else command_next m lease sequence (checked_add lease.last_command_sequence 1)

unfoldable pub authorize_command :
    LeaseManager → LeaseId → ℕ → ℕ → ℕ → Call LeaseManager LeaseError (Unit {0})
unfolding command_active validate_active_ref
authorize_command m id generation sequence now_ms = elim m.active [
  | none ↦ (m, err lease_not_active)
  | some lease ↦ command_active m lease sequence now_ms (validate_active_ref lease id generation)
]

-- `self.last_released == Some((id, generation))`
was_released : Option (LeaseId × ℕ) → LeaseId → ℕ → Bool
was_released none id generation = false
was_released (some (i, g)) id generation = if bytes_eq i id then g == generation else false

release_active : LeaseManager → Result LeaseError (Unit {0}) → Call LeaseManager LeaseError Bool
unfolding freeze_active
release_active m (err e) = (m, err e)
release_active m (ok _) = ((freeze_active m).0, ok true)

unfoldable pub release_or_close : LeaseManager → LeaseId → ℕ → Call LeaseManager LeaseError Bool
unfolding release_active was_released validate_active_ref
release_or_close m id generation = elim m.active [
  | some lease ↦ release_active m (validate_active_ref lease id generation)
  | none ↦
      if was_released m.last_released id generation
      then (m, ok false)
      else (m, err lease_not_active)
]

unfoldable pub release : LeaseManager → LeaseId → ℕ → Call LeaseManager LeaseError Bool
unfolding release_or_close
release m id generation = release_or_close m id generation

unfoldable pub close : LeaseManager → LeaseId → ℕ → Call LeaseManager LeaseError Bool
unfolding release_or_close
close m id generation = release_or_close m id generation

unfoldable pub expire : LeaseManager → ℕ → LeaseManager × Option LeaseId
unfolding freeze_active
expire m now_ms = elim m.active [
  | none ↦ (m, none)
  | some lease ↦
      if leb lease.expires_at_ms now_ms then ((freeze_active m).0, some lease.id) else (m, none)
]

unfoldable pub input_may_be_enabled : LeaseManager → Bool
input_may_be_enabled m = elim m.active [ none ↦ false | some lease ↦ lease.may_control_input ]

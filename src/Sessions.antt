-- ===== src/Sessions.antt =====
-- crates/host-agent/src/sessions.rs: the active sessions of the Host and their controllers. The
-- broadcast of terminations is the list of the events sent, the newest last. The mutex is never
-- poisoned.
pub mod Ended
use roammand.Base.{
  ℕ, Bool, true, false, not, ◌||◌, Option, none, some, is_some, List, [], ◌∷◌, ◌++◌, Bytes,
  bytes_eq, length, ◌==◌, Result, ok, err, Call, if◌then◌else◌,
}
use roammand.Grants.Maps.{get, insert, remove}
use roammand.Validation.{device_id_bytes}
use roammand.Validation.Statuses.{session_id_bytes}

pub data SessionRegistryError : Type 0 where
  invalid_identity duplicate_session unavailable : SessionRegistryError

pub record SessionTerminatedEvent : Type 0 where
  pub session_id : Bytes
  pub controller_device_id : Bytes
  pub reason : ℕ

pub record SessionRegistry : Type 0 where
  pub sessions : List (Bytes × Bytes)
  pub terminations : List SessionTerminatedEvent

-- ErrorCode::AuthRevoked as i32
abbrev pub auth_revoked : ℕ
auth_revoked = 7

unfoldable pub new : SessionRegistry
new = record { sessions = []; terminations = [] }

unfoldable pub register :
    SessionRegistry → Bytes → Bytes → Call SessionRegistry SessionRegistryError (Unit {0})
register r session_id controller_device_id =
    if not (length session_id == session_id_bytes)
      || not (length controller_device_id == device_id_bytes)
    then (r, err invalid_identity)
    else if is_some (get session_id r.sessions)
    then (r, err duplicate_session)
    else (record r { sessions = insert session_id controller_device_id r.sessions }, ok tt)

-- `filter` and `map`: the identifiers of the sessions of a controller
unfoldable pub sessions_of : Bytes → List (Bytes × Bytes) → List Bytes
sessions_of controller [] = []
sessions_of controller ((session_id, other) ∷ sessions) =
    let rest = sessions_of controller sessions in
    if bytes_eq other controller then session_id ∷ rest else rest

unfoldable pub remove_each : List Bytes → List (Bytes × Bytes) → List (Bytes × Bytes)
remove_each [] sessions = sessions
remove_each (session_id ∷ ids) sessions = remove_each ids (remove session_id sessions)

unfoldable pub revoked : Bytes → List Bytes → List SessionTerminatedEvent
revoked controller [] = []
revoked controller (session_id ∷ ids) =
    (record { session_id = session_id; controller_device_id = controller; reason = auth_revoked })
    ∷ revoked controller ids

unfoldable pub terminate_controller :
    SessionRegistry → Bytes → SessionRegistry × List SessionTerminatedEvent
terminate_controller r controller_device_id =
    let ids = sessions_of controller_device_id r.sessions in
    let events = revoked controller_device_id ids in
    (
      record { sessions = remove_each ids r.sessions; terminations = r.terminations ++ events },
      events,
    )

unfoldable pub terminated : ℕ → List (Bytes × Bytes) → List SessionTerminatedEvent
terminated reason [] = []
terminated reason ((session_id, controller) ∷ sessions) =
    (record { session_id = session_id; controller_device_id = controller; reason = reason })
    ∷ terminated reason sessions

unfoldable pub terminate_all : SessionRegistry → ℕ → SessionRegistry × List SessionTerminatedEvent
terminate_all r reason =
    let events = terminated reason r.sessions in
    (record { sessions = []; terminations = r.terminations ++ events }, events)

unfoldable pub unregister : SessionRegistry → Bytes → Call SessionRegistry SessionRegistryError Bool
unregister r session_id =
    if not (length session_id == session_id_bytes) then (r, err invalid_identity) else (
      record r { sessions = remove session_id r.sessions },
      ok (is_some (get session_id r.sessions)),
    )

unfoldable pub count : SessionRegistry → ℕ
count r = length r.sessions

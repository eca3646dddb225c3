-- ===== src/Bridge.antt =====
-- crates/privileged-bridge/src/framing.rs: one frame per message, the requests that wait for a
-- response, and the queue of events.
pub mod Exact
pub mod Requests
pub mod Events
use roammand.Base.{
  ℕ, Bool, true, false, ◌||◌, ◌&&◌, not, Option, none, some, List, [], ◌∷◌, ◌++◌, Bytes, bytes_eq,
  Text, text_len, is_empty, any, length, ltb, leb, ◌==◌, Result, ok, err, Call, ◌>>=◌, ◌>>◌,
  map_err, if◌then◌else◌,
}
use roammand.Frame
use roammand.Frame.{FrameError, FrameDecoder}

abbrev pub max_privileged_bridge_frame_bytes : ℕ
max_privileged_bridge_frame_bytes = 262144

abbrev pub max_request_id_utf8_bytes : ℕ
max_request_id_utf8_bytes = 64

abbrev pub max_pending_requests : ℕ
max_pending_requests = 32

abbrev pub max_critical_events : ℕ
max_critical_events = 256

pub data BridgeFrameError : Type 0 where
  frame : FrameError → BridgeFrameError
  expected_single_frame : BridgeFrameError

unfoldable pub encode_bridge_frame : Bytes → Result FrameError Bytes
encode_bridge_frame payload =
    Frame.encode_frame_with_limit payload max_privileged_bridge_frame_bytes

-- `frames.next()`, and again
unfoldable pub single : List Bytes → Result BridgeFrameError Bytes
single [] = err expected_single_frame
single (payload ∷ []) = ok payload
single (payload ∷ _ ∷ _) = err expected_single_frame

-- `#[from] FrameError`
abbrev from_frame : {A : Type 0} → Result FrameError A → Result BridgeFrameError A
from_frame (ok a) = ok a
from_frame (err e) = err (frame e)

unfoldable pub finish_exact :
    Call FrameDecoder FrameError (List Bytes) → Result BridgeFrameError Bytes
unfolding single
finish_exact (d, err e) = err (frame e)
finish_exact (d, ok frames) = do from_frame (Frame.finish d); single frames

-- `none`: the fuel of `push` ran out.
abbrev pub decided :
    Option (Call FrameDecoder FrameError (List Bytes)) → Option (Result BridgeFrameError Bytes)
decided none = none
decided (some r) = some (finish_exact r)

unfoldable pub decode_exact_bridge_frame : Bytes → Option (Result BridgeFrameError Bytes)
decode_exact_bridge_frame encoded =
    decided (Frame.push (Frame.new max_privileged_bridge_frame_bytes) encoded)

pub data RequestError : Type 0 where
  invalid_request_id duplicate_request pending_limit stale_response : RequestError

-- The set is kept as the list of its members.
pub record RequestTracker : Type 0 where
  pub pending : List Text

-- RequestTracker::new
abbrev pub no_requests : RequestTracker
no_requests = record { pending = [] }

-- HashSet::contains and HashSet::remove
unfoldable pub contains : Text → List Text → Bool
contains id ids = any (bytes_eq id) ids

unfoldable pub remove : Text → List Text → List Text
remove id [] = []
remove id (i ∷ ids) = if bytes_eq id i then remove id ids else i ∷ remove id ids

unfoldable pub begin : RequestTracker → Text → Call RequestTracker RequestError (Unit {0})
begin t request_id =
    if is_empty request_id || ltb max_request_id_utf8_bytes (text_len request_id)
    then (t, err invalid_request_id)
    else if contains request_id t.pending
    then (t, err duplicate_request)
    else if leb max_pending_requests (length t.pending)
    then (t, err pending_limit)
    else (record { pending = request_id ∷ t.pending }, ok tt)

unfoldable pub complete : RequestTracker → Text → Call RequestTracker RequestError (Unit {0})
complete t request_id =
    if not (contains request_id t.pending)
    then (t, err stale_response)
    else (record { pending = remove request_id t.pending }, ok tt)

unfoldable pub pending_count : RequestTracker → ℕ
pending_count t = length t.pending

pub data EventQueueError : Type 0 where
  critical_overflow failed_queue : EventQueueError

pub record EventQueue (A : Type 0) : Type 0 where
  pub critical : List A
  pub fast : Option A
  pub failed : Bool

-- EventQueue::new
abbrev pub no_events : {A : Type 0} → EventQueue A
no_events = record { critical = []; fast = none; failed = false }

module _ {A : Type 0} where
  unfoldable pub fail_closed : EventQueue A → EventQueue A
  fail_closed q = record { critical = []; fast = none; failed = true }

  unfoldable pub push_critical : EventQueue A → A → Call (EventQueue A) EventQueueError (Unit {0})
  unfolding fail_closed
  push_critical q event =
      if q.failed
      then (q, err failed_queue)
      else if leb max_critical_events (length q.critical)
      then (fail_closed q, err critical_overflow)
      else (record q { critical = q.critical ++ event ∷ [] }, ok tt)

  unfoldable pub push_fast : EventQueue A → A → Call (EventQueue A) EventQueueError (Unit {0})
  push_fast q event =
      if q.failed then (q, err failed_queue) else (record q { fast = some event }, ok tt)

  -- VecDeque::pop_front
  unfoldable pub pop_front : List A → List A × Option A
  pop_front [] = ([], none)
  pop_front (x ∷ xs) = (xs, some x)

  unfoldable pub pop_critical : EventQueue A → Call (EventQueue A) EventQueueError (Option A)
  unfolding pop_front
  pop_critical q =
      if q.failed
      then (q, err failed_queue)
      else let (critical, event) = pop_front q.critical in
        (record q { critical = critical }, ok event)

  unfoldable pub pop_fast : EventQueue A → EventQueue A × Option A
  pop_fast q = if q.failed then (q, none) else (record q { fast = none }, q.fast)

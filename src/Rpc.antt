-- ===== src/Rpc.antt =====
-- crates/privileged-bridge/src/rpc.rs: requests and events of the bridge over one transport, here a
-- state with its operations. Encoding and decoding by prost are parameters. The loop of `call` runs
-- on fuel, one unit for each frame that it receives.
pub mod Answered
use roammand.Base.{
  ℕ, zero, suc, Bool, true, false, not, ◌||◌, Option, none, some, Bytes, bytes_eq, ◌==◌, Result, ok,
  err, Call, map_err, if◌then◌else◌,
}
use roammand.Bridge.{
  EventQueue, EventQueueError, no_events, push_critical, push_fast, pop_critical, pop_fast,
}
use roammand.Messages.{
  PrivilegedBridgeClientFrame, PrivilegedBridgeServerFrame, ServerPayload, fast_pointer,
  local_ice_candidate, peer_state_changed, reliable_input,
}
use roammand.Proxy.{ProxyError, transport, stale_response, failed_closed, invalid_message}
use roammand.Validation.Frames.{decode_and_validate_privileged_bridge_server_frame}

pub data TransportError : Type 0 where
  disconnected peer_rejected transport_failed : TransportError

pub record LocalBridgeTransport (T : Type 0) : Type 0 where
  pub send : T → Bytes → Call T TransportError (Unit {0})
  pub receive : T → Call T TransportError Bytes
  pub try_receive : T → Call T TransportError (Option Bytes)
  pub fail_transport : T → T

pub record FrameCodec : Type 0 where
  pub encode_to_vec : PrivilegedBridgeClientFrame → Bytes
  pub decode_server : Bytes → Option PrivilegedBridgeServerFrame

pub record FramedBridgeRpc (T : Type 0) : Type 0 where
  pub transport_state : T
  pub events : EventQueue PrivilegedBridgeServerFrame
  pub failed : Bool

unfoldable pub new : {T : Type 0} → T → FramedBridgeRpc T
new t = record { transport_state = t; events = no_events; failed = false }

unfoldable pub map_transport_error : TransportError → ProxyError
map_transport_error error = transport

-- What `enqueue_event` makes of a push: no frame is left over.
abbrev pub queued :
    {T : Type 0}
    → FramedBridgeRpc T
    → Call (EventQueue PrivilegedBridgeServerFrame) EventQueueError (Unit {0})
    → Call (FramedBridgeRpc T) ProxyError (Option PrivilegedBridgeServerFrame)
queued r (q, ok u) = (record r { events = q }, ok none)
queued r (q, err e) = (record r { events = q }, err failed_closed)

unfoldable pub enqueue_payload :
    {T : Type 0}
    → FramedBridgeRpc T
    → PrivilegedBridgeServerFrame
    → Option ServerPayload
    → Call (FramedBridgeRpc T) ProxyError (Option PrivilegedBridgeServerFrame)
enqueue_payload r frame none = (r, err invalid_message)
enqueue_payload r frame (some (fast_pointer value)) = queued r (push_fast r.events frame)
enqueue_payload r frame (some (local_ice_candidate value)) = queued r (push_critical r.events frame)
enqueue_payload r frame (some (peer_state_changed value)) = queued r (push_critical r.events frame)
enqueue_payload r frame (some (reliable_input value)) = queued r (push_critical r.events frame)
enqueue_payload r frame (some _) = (r, ok (some frame))

unfoldable pub enqueue_event :
    {T : Type 0}
    → FramedBridgeRpc T
    → PrivilegedBridgeServerFrame
    → Call (FramedBridgeRpc T) ProxyError (Option PrivilegedBridgeServerFrame)
enqueue_event r frame = enqueue_payload r frame frame.payload

-- `queued_event`: the oldest critical event, or else the fast one.
abbrev pub popped :
    {T : Type 0}
    → FramedBridgeRpc T
    → Call
        (EventQueue PrivilegedBridgeServerFrame)
        EventQueueError
        (Option PrivilegedBridgeServerFrame)
    → Call (FramedBridgeRpc T) ProxyError (Option PrivilegedBridgeServerFrame)
popped r (q, err e) = (record r { events = q }, err failed_closed)
popped r (q, ok (some event)) = (record r { events = q }, ok (some event))
popped r (q, ok none) = let (rest, event) = pop_fast q in (record r { events = rest }, ok event)

unfoldable pub queued_event :
    {T : Type 0}
    → FramedBridgeRpc T
    → Call (FramedBridgeRpc T) ProxyError (Option PrivilegedBridgeServerFrame)
queued_event r = popped r (pop_critical r.events)

module _ {T : Type 0} (api : LocalBridgeTransport T) (codec : FrameCodec) where
  unfoldable pub fail_closed : FramedBridgeRpc T → FramedBridgeRpc T
  fail_closed r =
      if r.failed
      then r
      else record r { failed = true; transport_state = api.fail_transport r.transport_state }

  unfoldable pub reject :
      {A : Type 0} → FramedBridgeRpc T → ProxyError → Call (FramedBridgeRpc T) ProxyError A
  reject r error = (fail_closed r, err error)

  unfoldable pub decode : Bytes → Result ProxyError PrivilegedBridgeServerFrame
  decode encoded =
      map_err invalid_message
        (decode_and_validate_privileged_bridge_server_frame codec.decode_server encoded)

  -- A response that is no event, against the request.
  unfoldable pub check_response :
      FramedBridgeRpc T
      → PrivilegedBridgeClientFrame
      → PrivilegedBridgeServerFrame
      → Call (FramedBridgeRpc T) ProxyError PrivilegedBridgeServerFrame
  check_response r request response =
      if not (bytes_eq response.request_id request.request_id)
        || not (response.sequence == request.sequence)
      then reject r stale_response
      else (r, ok response)

  -- One pass of the loop, up to `continue`, which leaves no result.
  unfoldable pub enqueued :
      PrivilegedBridgeClientFrame
      → Call (FramedBridgeRpc T) ProxyError (Option PrivilegedBridgeServerFrame)
      → FramedBridgeRpc T × Option (Result ProxyError PrivilegedBridgeServerFrame)
  enqueued request (r, err error) = (fail_closed r, some (err error))
  enqueued request (r, ok none) = (r, none)
  enqueued request (r, ok (some response)) =
      let c = check_response r request response in (c.0, some c.1)

  unfoldable pub decoded :
      FramedBridgeRpc T
      → PrivilegedBridgeClientFrame
      → Result ProxyError PrivilegedBridgeServerFrame
      → FramedBridgeRpc T × Option (Result ProxyError PrivilegedBridgeServerFrame)
  decoded r request (err error) = (fail_closed r, some (err error))
  decoded r request (ok frame) = enqueued request (enqueue_event r frame)

  unfoldable pub received :
      FramedBridgeRpc T
      → PrivilegedBridgeClientFrame
      → Call T TransportError Bytes
      → FramedBridgeRpc T × Option (Result ProxyError PrivilegedBridgeServerFrame)
  received r request (t, err error) =
      (fail_closed (record r { transport_state = t }), some (err (map_transport_error error)))
  received r request (t, ok encoded) =
      decoded (record r { transport_state = t }) request (decode encoded)

  unfoldable pub pass :
      FramedBridgeRpc T
      → PrivilegedBridgeClientFrame
      → FramedBridgeRpc T × Option (Result ProxyError PrivilegedBridgeServerFrame)
  pass r request = received r request (api.receive r.transport_state)

  -- `none`: the fuel ran out.
  unfoldable pub receive_loop :
      ℕ
      → PrivilegedBridgeClientFrame
      → FramedBridgeRpc T × Option (Result ProxyError PrivilegedBridgeServerFrame)
      → Option (Call (FramedBridgeRpc T) ProxyError PrivilegedBridgeServerFrame)
  receive_loop fuel request (r, some result) = some (r, result)
  receive_loop zero request (r, none) = none
  receive_loop (suc fuel) request (r, none) = receive_loop fuel request (pass r request)

  unfoldable pub sent :
      ℕ
      → FramedBridgeRpc T
      → PrivilegedBridgeClientFrame
      → Call T TransportError (Unit {0})
      → Option (Call (FramedBridgeRpc T) ProxyError PrivilegedBridgeServerFrame)
  sent fuel r request (t, err error) =
      some (reject (record r { transport_state = t }) (map_transport_error error))
  sent fuel r request (t, ok u) = receive_loop fuel request (record r { transport_state = t }, none)

  unfoldable pub call :
      ℕ
      → FramedBridgeRpc T
      → PrivilegedBridgeClientFrame
      → Option (Call (FramedBridgeRpc T) ProxyError PrivilegedBridgeServerFrame)
  call fuel r request =
      if r.failed
      then some (r, err failed_closed)
      else sent fuel r request (api.send r.transport_state (codec.encode_to_vec request))

  -- What `try_event` makes of the frame that it received.
  unfoldable pub event_enqueued :
      Call (FramedBridgeRpc T) ProxyError (Option PrivilegedBridgeServerFrame)
      → Call (FramedBridgeRpc T) ProxyError (Option PrivilegedBridgeServerFrame)
  event_enqueued (r, ok none) = queued_event r
  event_enqueued (r, ok (some frame)) = reject r stale_response
  event_enqueued (r, err error) = reject r error

  unfoldable pub event_decoded :
      FramedBridgeRpc T
      → Result ProxyError PrivilegedBridgeServerFrame
      → Call (FramedBridgeRpc T) ProxyError (Option PrivilegedBridgeServerFrame)
  event_decoded r (err error) = reject r error
  event_decoded r (ok frame) = event_enqueued (enqueue_event r frame)

  unfoldable pub event_received :
      FramedBridgeRpc T
      → Call T TransportError (Option Bytes)
      → Call (FramedBridgeRpc T) ProxyError (Option PrivilegedBridgeServerFrame)
  event_received r (t, err error) =
      reject (record r { transport_state = t }) (map_transport_error error)
  event_received r (t, ok none) = (record r { transport_state = t }, ok none)
  event_received r (t, ok (some encoded)) =
      event_decoded (record r { transport_state = t }) (decode encoded)

  unfoldable pub polled :
      Call (FramedBridgeRpc T) ProxyError (Option PrivilegedBridgeServerFrame)
      → Call (FramedBridgeRpc T) ProxyError (Option PrivilegedBridgeServerFrame)
  polled (r, err error) = (r, err error)
  polled (r, ok (some event)) = (r, ok (some event))
  polled (r, ok none) = event_received r (api.try_receive r.transport_state)

  unfoldable pub try_event :
      FramedBridgeRpc T → Call (FramedBridgeRpc T) ProxyError (Option PrivilegedBridgeServerFrame)
  try_event r = if r.failed then (r, err failed_closed) else polled (queued_event r)

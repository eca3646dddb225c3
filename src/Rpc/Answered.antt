-- ===== src/Rpc/Answered.antt =====
-- The loop of `call` in crates/privileged-bridge/src/rpc.rs ends, and what it ends with.
use roammand.Base.{
  ℕ, zero, suc, ◌<◌, ◌≡◌, ◌⊎◌, refl, ◌∙◌, ap, true, false, not, ◌||◌, Option, none, some, Bytes,
  bytes_eq, bytes_eq_iff, ◌==◌, Result, ok, err, Call, if-split, inl, inr, arith,
}
use roammand.Bridge.{EventQueue, EventQueueError, push_critical, push_fast}
use roammand.Messages
use roammand.Messages.{PrivilegedBridgeClientFrame, PrivilegedBridgeServerFrame, ServerPayload}
use roammand.Proxy.{ProxyError, failed_closed, stale_response}
use roammand.Rpc.{
  TransportError, LocalBridgeTransport, FrameCodec, FramedBridgeRpc, queued, enqueue_payload,
  enqueue_event, fail_closed, reject, decode, check_response, enqueued, decoded, received, pass,
  receive_loop, sent, call, map_transport_error,
}

module _ {T : Type 0} (api : LocalBridgeTransport T) (codec : FrameCodec) where
  -- The response is the one to the request, or the bridge has failed.
  abbrev pub IsOutcome :
      PrivilegedBridgeClientFrame
      → Call (FramedBridgeRpc T) ProxyError PrivilegedBridgeServerFrame
      → Type 0
  IsOutcome request c =
      ((response : PrivilegedBridgeServerFrame) × (c.1 ≡ ok response)
        × (response.request_id ≡ request.request_id)
        × (response.sequence ≡ request.sequence)
        × (c.0.failed ≡ false))
      ⊎ ((error : ProxyError) × (c.1 ≡ err error) × (c.0.failed ≡ true))

  fail_closed-failed : (r : FramedBridgeRpc T) → (fail_closed api codec r).failed ≡ true
  unfolding fail_closed
  fail_closed-failed r = ground arith

  -- What a pass leaves: an outcome, or the same transport and a bridge that has not failed.
  abbrev IsPass :
      PrivilegedBridgeClientFrame
      → T
      → FramedBridgeRpc T × Option (Result ProxyError PrivilegedBridgeServerFrame)
      → Type 0
  IsPass request t (r, none) = (r.failed ≡ false) × (r.transport_state ≡ t)
  IsPass request t (r, some result) = IsOutcome request (r, result)

  check_response-IsOutcome :
      (r : FramedBridgeRpc T) (request : PrivilegedBridgeClientFrame)
      (response : PrivilegedBridgeServerFrame)
      → r.failed ≡ false
      → IsOutcome request (check_response api codec r request response)
  unfolding check_response reject
  check_response-IsOutcome r request response f =
      let same = bytes_eq_iff response.request_id request.request_id in
      if-split (IsOutcome request)
        (not (bytes_eq response.request_id request.request_id)
          || not (response.sequence == request.sequence))
        (λ e. inr (stale_response, refl, fail_closed-failed r))
        (λ e. inl (response, refl, same.0 (ground arith), ground arith, f))

  enqueued-IsPass :
      (request : PrivilegedBridgeClientFrame) (t : T)
      (c : Call (FramedBridgeRpc T) ProxyError (Option PrivilegedBridgeServerFrame))
      → c.0.failed ≡ false
      → c.0.transport_state ≡ t
      → IsPass request t (enqueued api codec request c)
  unfolding enqueued
  enqueued-IsPass request t (r, err error) f e = inr (error, refl, fail_closed-failed r)
  enqueued-IsPass request t (r, ok none) f e = (f, e)
  enqueued-IsPass request t (r, ok (some response)) f e =
      check_response-IsOutcome r request response f

  -- A frame that is queued leaves the transport and the mark alone.
  abbrev IsKept :
      FramedBridgeRpc T
      → Call (FramedBridgeRpc T) ProxyError (Option PrivilegedBridgeServerFrame)
      → Type 0
  IsKept r c = (c.0.failed ≡ r.failed) × (c.0.transport_state ≡ r.transport_state)

  queued-IsKept :
      (r : FramedBridgeRpc T)
      (c : Call (EventQueue PrivilegedBridgeServerFrame) EventQueueError (Unit {0}))
      → IsKept r (queued r c)
  queued-IsKept r (q, ok u) = (refl, refl)
  queued-IsKept r (q, err e) = (refl, refl)

  enqueue_payload-IsKept :
      (r : FramedBridgeRpc T) (frame : PrivilegedBridgeServerFrame) (payload : Option ServerPayload)
      → IsKept r (enqueue_payload r frame payload)
  unfolding enqueue_payload
  enqueue_payload-IsKept r frame none = (refl, refl)
  enqueue_payload-IsKept r frame (some (Messages.fast_pointer value)) =
      queued-IsKept r (push_fast r.events frame)
  enqueue_payload-IsKept r frame (some (Messages.local_ice_candidate value)) =
      queued-IsKept r (push_critical r.events frame)
  enqueue_payload-IsKept r frame (some (Messages.peer_state_changed value)) =
      queued-IsKept r (push_critical r.events frame)
  enqueue_payload-IsKept r frame (some (Messages.reliable_input value)) =
      queued-IsKept r (push_critical r.events frame)
  enqueue_payload-IsKept r frame (some (Messages.challenge value)) = (refl, refl)
  enqueue_payload-IsKept r frame (some (Messages.authenticated value)) = (refl, refl)
  enqueue_payload-IsKept r frame (some (Messages.helper_registered value)) = (refl, refl)
  enqueue_payload-IsKept r frame (some (Messages.status value)) = (refl, refl)
  enqueue_payload-IsKept r frame (some (Messages.lease value)) = (refl, refl)
  enqueue_payload-IsKept r frame (some (Messages.peer_answer value)) = (refl, refl)
  enqueue_payload-IsKept r frame (some (Messages.command_accepted value)) = (refl, refl)
  enqueue_payload-IsKept r frame (some (Messages.error value)) = (refl, refl)

  decoded-IsPass :
      (r : FramedBridgeRpc T) (request : PrivilegedBridgeClientFrame)
      (d : Result ProxyError PrivilegedBridgeServerFrame)
      → r.failed ≡ false
      → IsPass request r.transport_state (decoded api codec r request d)
  unfolding decoded enqueue_event
  decoded-IsPass r request (err error) f = inr (error, refl, fail_closed-failed r)
  decoded-IsPass r request (ok frame) f =
      let (kept, same) = enqueue_payload-IsKept r frame frame.payload in
      enqueued-IsPass request r.transport_state (enqueue_payload r frame frame.payload) (kept ∙ f)
        same

  received-IsPass :
      (r : FramedBridgeRpc T) (request : PrivilegedBridgeClientFrame)
      (c : Call T TransportError Bytes)
      → r.failed ≡ false
      → IsPass request c.0 (received api codec r request c)
  unfolding received
  received-IsPass r request (t, err error) f =
      inr (map_transport_error error, refl, fail_closed-failed (record r { transport_state = t }))
  received-IsPass r request (t, ok encoded) f =
      decoded-IsPass (record r { transport_state = t }) request (decode api codec encoded) f

  -- The transport has this many frames at most, before a receive fails.
  abbrev pub IsFinite : (T → ℕ) → Type 0
  IsFinite remaining =
      (t : T)
      → ((error : TransportError) × ((api.receive t).1 ≡ err error))
        ⊎ (remaining (api.receive t).0 < remaining t)

  abbrev HasOutcome :
      PrivilegedBridgeClientFrame
      → Option (Call (FramedBridgeRpc T) ProxyError PrivilegedBridgeServerFrame)
      → Type 0
  HasOutcome request o =
      (c : Call (FramedBridgeRpc T) ProxyError PrivilegedBridgeServerFrame) × (o ≡ some c)
      × IsOutcome request c

  -- A receive that fails ends the loop.
  receive_failed :
      (fuel : ℕ) (r : FramedBridgeRpc T) (request : PrivilegedBridgeClientFrame)
      (c : Call T TransportError Bytes) (error : TransportError)
      → c.1 ≡ err error
      → HasOutcome request (receive_loop api codec fuel request (received api codec r request c))
  unfolding receive_loop received
  receive_failed fuel r request (t, ok encoded) error e = absurd (ground arith)
  receive_failed fuel r request (t, err x) error e =
      let failed = fail_closed api codec (record r { transport_state = t }) in
      (
        (failed, err (map_transport_error x)),
        refl,
        inr (map_transport_error x, refl, fail_closed-failed (record r { transport_state = t })),
      )

  loop_outcome :
      (remaining : T → ℕ) (finite : IsFinite remaining) (fuel : ℕ)
      (request : PrivilegedBridgeClientFrame)
      (p : FramedBridgeRpc T × Option (Result ProxyError PrivilegedBridgeServerFrame)) (t : T)
      → IsPass request t p
      → remaining t < fuel
      → HasOutcome request (receive_loop api codec fuel request p)
  unfolding receive_loop pass
  loop_outcome remaining finite fuel request (r, some result) t i h = ((r, result), refl, i)
  loop_outcome remaining finite zero request (r, none) t i h = absurd (omega arith)
  loop_outcome remaining finite (suc fuel) request (r, none) t i h =
      let c = api.receive r.transport_state in
      elim (finite r.transport_state) [
        | inl (error, e) ↦ receive_failed fuel r request c error e
        | inr fewer ↦
            loop_outcome remaining finite fuel request (received api codec r request c) c.0
              (received-IsPass r request c i.0) (omega (arith, ap remaining i.1))
      ]

  sent_outcome :
      (remaining : T → ℕ) (finite : IsFinite remaining) (fuel : ℕ) (r : FramedBridgeRpc T)
      (request : PrivilegedBridgeClientFrame) (c : Call T TransportError (Unit {0}))
      → r.failed ≡ false
      → remaining c.0 < fuel
      → HasOutcome request (sent api codec fuel r request c)
  unfolding sent reject
  sent_outcome remaining finite fuel r request (t, err x) f h =
      let failed = fail_closed api codec (record r { transport_state = t }) in
      (
        (failed, err (map_transport_error x)),
        refl,
        inr (map_transport_error x, refl, fail_closed-failed (record r { transport_state = t })),
      )
  sent_outcome remaining finite fuel r request (t, ok u) f h =
      loop_outcome remaining finite fuel request (record r { transport_state = t }, none) t
        (f, refl) h

  -- If a receive on the transport fails or leaves fewer frames to come, then a call with more fuel
  -- than the frames that are left after it has sent its request ends: with the response that has
  -- the request's id and number, and the bridge has not failed; or with an error, and it has
  -- failed.
  pub call_ends :
      (remaining : T → ℕ) (fuel : ℕ) (r : FramedBridgeRpc T) (request : PrivilegedBridgeClientFrame)
      → IsFinite remaining
      → remaining (api.send r.transport_state (codec.encode_to_vec request)).0 < fuel
      → (c : Call (FramedBridgeRpc T) ProxyError PrivilegedBridgeServerFrame) × (call api codec fuel
            r request
          ≡ some c)
        × IsOutcome request c
  unfolding call
  call_ends remaining fuel r request finite h =
      if-split (HasOutcome request) r.failed
        (λ f. ((r, err failed_closed), refl, inr (failed_closed, refl, f)))
        (λ f.
          sent_outcome remaining finite fuel r request
            (api.send r.transport_state (codec.encode_to_vec request)) f h)

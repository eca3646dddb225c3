-- ===== src/Helper/Protocol.antt =====
-- `HelperProtocol` of helper.rs over a backend.
use roammand.Base.{
  ℕ, Bool, true, false, Option, none, some, Bytes, Text, checked_add, Result, ok, err, map_err,
  ok_or, Call, and_then, ◌>>=◌, if◌then◌else◌,
}
use roammand.Messages.{
  WebRtcSessionDescription, IceCandidate, PrivilegedPeerConfiguration, StartPrivilegedPeerRequest,
  AddPrivilegedIceCandidateRequest, PrivilegedInputCommand, ClientPayload, acquire_lease,
  renew_lease, release_lease, start_peer, restart_peer, add_ice_candidate, send_secure_attention,
  input_command, close_peer, authenticate, register_helper, PrivilegedBridgeClientFrame,
  PrivilegedBridgeServerFrame,
}
use roammand.Broker.Routing.{ProxyRoute, route_eq}
use roammand.Helper.Gate
use roammand.Helper.Gate.{HelperLeaseGate}
use roammand.Helper.Frames.{
  HelperProtocolError, invalid_message, stale_route, backend_failed, sequence_overflow, PeerAnswer,
  ProxyEvent, parse_route, accepted_response, answer_response, event_frame,
}

pub record HelperBackend (B : Type 0) : Type 0 where
  pub start :
      B
      → PrivilegedPeerConfiguration
      → WebRtcSessionDescription
      → Text
      → Call B HelperProtocolError PeerAnswer
  pub restart :
      B
      → PrivilegedPeerConfiguration
      → WebRtcSessionDescription
      → Text
      → Call B HelperProtocolError PeerAnswer
  pub add_candidate : B → IceCandidate → Call B HelperProtocolError (Unit {0})
  pub input : B → PrivilegedInputCommand → Call B HelperProtocolError (Unit {0})
  pub secure_attention : B → Call B HelperProtocolError (Unit {0})
  pub close : B → Call B HelperProtocolError (Unit {0})
  pub try_event : B → Call B HelperProtocolError (Option ProxyEvent)
  pub fail_closed : B → B

pub record HelperProtocol (B : Type 0) : Type 0 where
  pub gate : HelperLeaseGate
  pub backend : B
  pub next_event_sequence : ℕ
  pub failed : Bool

-- HelperProtocol::new
unfoldable pub new : {B : Type 0} → B → HelperProtocol B
unfolding Gate.new
new backend = record { gate = Gate.new; backend = backend; next_event_sequence = 1; failed = false }

module _ {B : Type 0} (api : HelperBackend B) where
  open api use {fail_closed as backend_fail_closed, try_event as backend_event}

  abbrev pub Reply : Type 0
  Reply = Call (HelperProtocol B) HelperProtocolError PrivilegedBridgeServerFrame

  -- A call of the backend.
  abbrev pub on_backend :
      {A : Type 0}
      → HelperProtocol B
      → Call B HelperProtocolError A
      → Call (HelperProtocol B) HelperProtocolError A
  on_backend p (backend, r) = (record p { backend = backend }, r)

  unfoldable pub fail_closed : HelperProtocol B → HelperProtocol B
  fail_closed p = if p.failed then p else record p {
    failed = true;
    gate = (Gate.release p.gate).0;
    backend = backend_fail_closed p.backend;
  }

  unfoldable pub attach :
      HelperProtocol B → ProxyRoute → Call (HelperProtocol B) HelperProtocolError (Unit {0})
  attach p route =
      let (gate, r) = Gate.attach p.gate route in (record p { gate = gate }, map_err stale_route r)

  unfoldable pub attach_or_authorize :
      HelperProtocol B → ProxyRoute → Call (HelperProtocol B) HelperProtocolError (Unit {0})
  unfolding attach
  attach_or_authorize p route = elim p.gate.route [
    | none ↦ attach p route
    | some current ↦ if route_eq current route then (p, ok tt) else attach p route
  ]

  unfoldable pub authorize : HelperProtocol B → Bytes → ℕ → Result HelperProtocolError ProxyRoute
  authorize p lease_id generation = do
    route ← parse_route lease_id generation
    w ← map_err stale_route (Gate.authorize p.gate route.lease_id route.generation)
    ok route

  -- `start` and `restart` differ in the backend's operation alone.
  abbrev pub Opening : Type 0
  Opening =
      B
      → PrivilegedPeerConfiguration
      → WebRtcSessionDescription
      → Text
      → Call B HelperProtocolError PeerAnswer

  unfoldable pub open_peer :
      Opening
      → HelperProtocol B
      → StartPrivilegedPeerRequest
      → Call (HelperProtocol B) HelperProtocolError PeerAnswer
  open_peer operation p value =
      and_then (p, ok_or value.configuration invalid_message)
        λ p configuration.
          and_then (p, ok_or value.offer invalid_message)
            λ p offer.
              on_backend p (operation p.backend configuration offer value.controller_display_name)

  unfoldable pub answer_peer :
      Opening → HelperProtocol B → PrivilegedBridgeClientFrame → StartPrivilegedPeerRequest → Reply
  answer_peer operation p request value =
      and_then (p, parse_route value.lease_id value.generation)
        λ p route. and_then (attach_or_authorize p route) λ p _.
          and_then (open_peer operation p value)
            λ p answer. (p, ok (answer_response request route answer))

  -- The operations that need the exact current route.
  unfoldable pub accept_command :
      HelperProtocol B
      → PrivilegedBridgeClientFrame
      → Bytes
      → ℕ
      → (HelperProtocol B → Call (HelperProtocol B) HelperProtocolError (Unit {0}))
      → Reply
  accept_command p request lease_id generation operation =
      and_then (p, authorize p lease_id generation)
        λ p route. and_then (operation p) λ p _. (p, ok (accepted_response request route))

  abbrev pub add_candidate :
      AddPrivilegedIceCandidateRequest
      → HelperProtocol B
      → Call (HelperProtocol B) HelperProtocolError (Unit {0})
  add_candidate value p =
      and_then (p, ok_or value.candidate invalid_message)
        λ p candidate. on_backend p (api.add_candidate p.backend candidate)

  abbrev pub close_and_release :
      HelperProtocol B → Call (HelperProtocol B) HelperProtocolError (Unit {0})
  close_and_release p =
      and_then (on_backend p (api.close p.backend))
        λ p _. (record p { gate = (Gate.release p.gate).0 }, ok tt)

  unfoldable pub handle_payload :
      HelperProtocol B → PrivilegedBridgeClientFrame → Option ClientPayload → Reply
  handle_payload p request none = (p, err invalid_message)
  handle_payload p request (some (start_peer value)) = answer_peer api.start p request value
  handle_payload p request (some (restart_peer value)) = answer_peer api.restart p request value
  handle_payload p request (some (add_ice_candidate value)) =
      accept_command p request value.lease_id value.generation (add_candidate value)
  handle_payload p request (some (input_command value)) =
      accept_command p request value.lease_id value.generation
        λ p. on_backend p (api.input p.backend value)
  handle_payload p request (some (send_secure_attention value)) =
      accept_command p request value.lease_id value.generation
        λ p. on_backend p (api.secure_attention p.backend)
  handle_payload p request (some (close_peer value)) =
      accept_command p request value.lease_id value.generation
        λ p. on_backend p (api.close p.backend)
  handle_payload p request (some (release_lease value)) =
      accept_command p request value.lease_id value.generation close_and_release
  handle_payload p request (some (authenticate value)) = (p, err invalid_message)
  handle_payload p request (some (register_helper value)) = (p, err invalid_message)
  handle_payload p request (some (acquire_lease value)) = (p, err invalid_message)
  handle_payload p request (some (renew_lease value)) = (p, err invalid_message)

  unfoldable pub handle_inner : HelperProtocol B → PrivilegedBridgeClientFrame → Reply
  handle_inner p request = handle_payload p request request.payload

  -- A backend failure closes everything.
  unfoldable pub close_on_failure : Reply → Reply
  close_on_failure (p, err backend_failed) = (fail_closed p, err backend_failed)
  close_on_failure (p, ok response) = (p, ok response)
  close_on_failure (p, err e) = (p, err e)

  unfoldable pub handle : HelperProtocol B → PrivilegedBridgeClientFrame → Reply
  handle p request =
      if p.failed then (p, err backend_failed) else close_on_failure (handle_inner p request)

  abbrev pub Polled : Type 0
  Polled = Call (HelperProtocol B) HelperProtocolError (Option PrivilegedBridgeServerFrame)

  unfoldable pub number_event :
      (ℕ → Text) → HelperProtocol B → ProxyRoute → ProxyEvent → Option ℕ → Polled
  number_event decimal p route event none = (p, err sequence_overflow)
  number_event decimal p route event (some next) = (
    record p { next_event_sequence = next },
    ok (some (event_frame decimal route p.next_event_sequence event)),
  )

  unfoldable pub bind_route :
      (ℕ → Text) → HelperProtocol B → ProxyEvent → Option ProxyRoute → Polled
  unfolding number_event
  bind_route decimal p event none = (p, err stale_route)
  bind_route decimal p event (some route) =
      number_event decimal p route event (checked_add p.next_event_sequence 1)

  unfoldable pub bind_event : (ℕ → Text) → HelperProtocol B → Option ProxyEvent → Polled
  unfolding bind_route
  bind_event decimal p none = (p, ok none)
  bind_event decimal p (some event) = bind_route decimal p event p.gate.route

  unfoldable pub polled :
      (ℕ → Text) → Call (HelperProtocol B) HelperProtocolError (Option ProxyEvent) → Polled
  unfolding bind_event fail_closed
  polled decimal (p, err e) = (fail_closed p, err e)
  polled decimal (p, ok event) = bind_event decimal p event

  unfoldable pub try_event : (ℕ → Text) → HelperProtocol B → Polled
  unfolding polled
  try_event decimal p =
      if p.failed
      then (p, err backend_failed)
      else polled decimal (on_backend p (backend_event p.backend))

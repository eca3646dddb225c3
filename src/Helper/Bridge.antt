-- ===== src/Helper/Bridge.antt =====
-- The broker over the Helper of helper.rs, joined the way runtime.rs does, in any passage for frames.
use roammand.Base.{
  ℕ, ◌≡◌, refl, ap, ◌∙◌, inl, inr, Bool, Bool-cases, if◌then◌else◌, Option, none, some, Bytes,
  bytes_eq_iff, Text, checked_add, Result, ok, err, Call, and_then, arith, ◌>>◌, >>-ok, ◌≢◌,
  and_then-err,
}
use roammand.Lease.{LeaseId}
use roammand.Messages.{
  LeaseRef, ClientPayload, acquire_lease, renew_lease, release_lease, start_peer,
  send_secure_attention, input_command, authenticate, register_helper, PrivilegedBridgeClientFrame,
  PrivilegedBridgeServerFrame, AcquirePrivilegedLeaseRequest,
}
use roammand.Broker.Routing.{
  ProxyRoute, BrokerProtocolError, stale_response, parse_route, request_route, response_route,
  route_eq_iff, helper_failed,
}
use roammand.Broker.Session.{
  BrokerHelper, HostBrokerSession, check_response, forward, next_operation, forward_authorized,
  acquire, name_check,
}
use roammand.Broker.Forwarding.{Echoes, answered}
use roammand.Broker.Handle.{handle, renew_route, release_route, finish_release, dispatch}
use roammand.Helper.Frames
use roammand.Helper.Protocol
use roammand.Helper.Protocol.{HelperBackend, HelperProtocol}
use roammand.Helper.Binding.{named_route, handle-IsBound}

-- What stands between the two programs: whether a request is decoded and passes the Helper's
-- validation, whether its response passes the limit of a frame, the validation and the test of id and
-- number of `FramedBridgeRpc::call`, and whether an event passes its checks. A frame that passes
-- arrives as it was sent.
pub record Passage : Type 0 where
  pub request_passes : PrivilegedBridgeClientFrame → Bool
  pub response_passes : PrivilegedBridgeClientFrame → PrivilegedBridgeServerFrame → Bool
  pub event_passes : PrivilegedBridgeServerFrame → Bool

module _ {B : Type 0} (api : HelperBackend B) (decimal : ℕ → Text) (passage : Passage) where
  -- A frame that does not pass, or an error of the Helper, ends both: `run_helper_transport` shuts
  -- the Helper down and closes the transport, and the broker's call sees a Helper failure.
  closed : {A : Type 0} → HelperProtocol B → Call (HelperProtocol B) BrokerProtocolError A
  closed p = (Protocol.fail_closed api p, err helper_failed)

  exchanged :
      PrivilegedBridgeClientFrame
      → Protocol.Reply api
      → Call (HelperProtocol B) BrokerProtocolError PrivilegedBridgeServerFrame
  unfolding closed
  exchanged request (p, ok response) =
      if passage.response_passes request response then (p, ok response) else closed p
  exchanged request (p, err e) = closed p

  polled :
      Protocol.Polled api
      → Call (HelperProtocol B) BrokerProtocolError (Option PrivilegedBridgeServerFrame)
  unfolding closed
  polled (p, ok none) = (p, ok none)
  polled (p, ok (some event)) =
      if passage.event_passes event then (p, ok (some event)) else closed p
  polled (p, err e) = closed p

  unfoldable pub link : BrokerHelper (HelperProtocol B)
  unfolding exchanged polled closed
  link = record {
    exchange = λ p request.
        if passage.request_passes request
        then exchanged request (Protocol.handle api p request)
        else closed p;
    try_event = λ p. polled (Protocol.try_event api decimal p);
    fail_closed = Protocol.fail_closed api;
  }

  same_route :
      (request : PrivilegedBridgeClientFrame) (payload : Option ClientPayload) (route : ProxyRoute)
      → request_route (record request { payload = payload }) ≡ ok route
      → named_route payload ≡ ok route
  unfolding request_route Frames.parse_route
  same_route request none route h = cc
  same_route request (some (start_peer value)) route h = ground arith
  same_route request (some payload) route h = ground arith

  -- The Helper's answers pass the broker's test.
  check_passes :
      (s : HostBrokerSession (HelperProtocol B)) (request : PrivilegedBridgeClientFrame)
      (route : ProxyRoute) (response : PrivilegedBridgeServerFrame)
      → Echoes request response
      → response_route response ≡ ok route
      → check_response link s request route response ≡ (s, ok response)
  unfolding check_response
  check_passes s request route response echo same =
      ground (arith, route_eq_iff route route, bytes_eq_iff response.request_id request.request_id)

  exchanged_ok :
      (request : PrivilegedBridgeClientFrame) (r : Protocol.Reply api)
      (response : PrivilegedBridgeServerFrame)
      → (exchanged request r).1 ≡ ok response
      → r.1 ≡ ok response
  unfolding exchanged closed
  exchanged_ok request (p, ok x) response h = ground arith
  exchanged_ok request (p, err e) response h = cc

  exchanged_err :
      (request : PrivilegedBridgeClientFrame) (r : Protocol.Reply api)
      → (exchanged request r).1 ≢ err stale_response
  unfolding exchanged closed
  exchanged_err request (p, ok x) h = ground arith
  exchanged_err request (p, err e) h = cc

  -- The exchange never fails for a stale response, and what it answers is the Helper's.
  exchange_fresh :
      (p : HelperProtocol B) (request : PrivilegedBridgeClientFrame)
      → (link.exchange p request).1 ≢ err stale_response
  unfolding link closed
  exchange_fresh p request h = elim (Bool-cases (passage.request_passes request)) [
    | inl t ↦ exchanged_err request (Protocol.handle api p request) (ground arith)
    | inr f ↦ ground arith
  ]

  exchange_ok :
      (p : HelperProtocol B) (request : PrivilegedBridgeClientFrame)
      (response : PrivilegedBridgeServerFrame)
      → (link.exchange p request).1 ≡ ok response
      → (Protocol.handle api p request).1 ≡ ok response
  unfolding link closed
  exchange_ok p request response h = elim (Bool-cases (passage.request_passes request)) [
    | inl t ↦ exchanged_ok request (Protocol.handle api p request) response (ground arith)
    | inr f ↦ ground arith
  ]

  forward_fresh :
      (s : HostBrokerSession (HelperProtocol B)) (request : PrivilegedBridgeClientFrame)
      (route : ProxyRoute)
      → named_route request.payload ≡ ok route
      → (forward link s request route).1 ≢ err stale_response
  unfolding forward
  forward_fresh s request route named h =
      elim (and_then-err (answered link s request) (λ t r. check_response link t request route r)
        h) [
          | inl e ↦ exchange_fresh s.helper request e
          | inr (response, e, h') ↦
              let b =
                handle-IsBound api s.helper request response
                  (exchange_ok s.helper request response e) in
              let t = (answered link s request).0 in
              let same : response_route response ≡ ok route =
                b.same_route ∙ ap ok (ground (arith, b.named)) in
              cc (check_passes t request route response b.echoes same)
        ]

  name_check_fresh :
      (s : HostBrokerSession (HelperProtocol B)) (request : PrivilegedBridgeClientFrame)
      → name_check link s request ≢ err stale_response
  unfolding name_check
  name_check_fresh s request h = ground arith

  request_route_fresh :
      (request : PrivilegedBridgeClientFrame) → request_route request ≢ err stale_response
  unfolding request_route
  request_route_fresh request h = ground arith

  next_operation_fresh :
      (s : HostBrokerSession (HelperProtocol B)) (route : ProxyRoute) (operation : Option ℕ)
      (now_ms : ℕ)
      → (next_operation link s route operation now_ms).1 ≢ err stale_response
  unfolding next_operation
  next_operation_fresh s route operation now_ms h = ground arith

  acquire_fresh :
      (s : HostBrokerSession (HelperProtocol B)) (request : PrivilegedBridgeClientFrame)
      (value : AcquirePrivilegedLeaseRequest) (now_ms : ℕ) (drawn : Option LeaseId)
      → (acquire link s request value now_ms drawn).1 ≢ err stale_response
  unfolding acquire
  acquire_fresh s request value now_ms drawn h = ground arith

  renew_fresh :
      (s : HostBrokerSession (HelperProtocol B)) (request : PrivilegedBridgeClientFrame)
      (now_ms : ℕ) (value : LeaseRef)
      → (renew_route link s request now_ms (parse_route value.lease_id value.generation)).1
        ≢ err stale_response
  unfolding renew_route parse_route
  renew_fresh s request now_ms value h = ground arith

  forward_authorized_fresh :
      (s : HostBrokerSession (HelperProtocol B)) (request : PrivilegedBridgeClientFrame)
      (now_ms : ℕ)
      → (forward_authorized link s request now_ms).1 ≢ err stale_response
  unfolding forward_authorized
  forward_authorized_fresh s request now_ms h =
      let checks = name_check link s request >> request_route request in
      let S = HostBrokerSession (HelperProtocol B) in
      let ask = λ (route : ProxyRoute) (t : S) (u : Unit {0}). forward link t request route in
      let book = λ (t : S) (route : ProxyRoute).
        next_operation link t route (checked_add t.operation_sequence 1) now_ms in
      elim (and_then-err (s, checks) (λ t route. and_then (book t route) (ask route)) h) [
        | inl e ↦ ground (arith, name_check_fresh s request, request_route_fresh request)
        | inr (route, routed, h') ↦ elim (and_then-err (book s route) (ask route) h') [
          | inl e ↦ next_operation_fresh s route (checked_add s.operation_sequence 1) now_ms e
          | inr (u, _, h'') ↦
              let r = (>>-ok (name_check link s request) (request_route request) routed).1 in
              forward_fresh (book s route).0 request route
                (same_route request request.payload route r) h''
        ]
      ]

  parse_fresh : (id : Bytes) (generation : ℕ) → parse_route id generation ≢ err stale_response
  unfolding parse_route
  parse_fresh id generation h = ground arith

  both_parse :
      (id : Bytes) (generation : ℕ) (route : ProxyRoute)
      → parse_route id generation ≡ ok route
      → Frames.parse_route id generation ≡ ok route
  unfolding parse_route Frames.parse_route
  both_parse id generation route h = ground arith

  finish_release_fresh :
      (s : HostBrokerSession (HelperProtocol B)) (route : ProxyRoute)
      (kept : PrivilegedBridgeServerFrame)
      → (finish_release link s route kept).1 ≢ err stale_response
  unfolding finish_release
  finish_release_fresh s route kept h = ground arith

  release_at_fresh :
      (s : HostBrokerSession (HelperProtocol B)) (request : PrivilegedBridgeClientFrame)
      (value : LeaseRef) (r : Result BrokerProtocolError ProxyRoute)
      → request.payload ≡ some (release_lease value)
      → parse_route value.lease_id value.generation ≡ r
      → (release_route link s request r).1 ≢ err stale_response
  unfolding release_route
  release_at_fresh s request value (err x) e p h =
      ground (arith, parse_fresh value.lease_id value.generation)
  release_at_fresh s request value (ok route) e p h =
      elim (and_then-err (forward link s request route) (λ t r. finish_release link t route r) h) [
        | inl f ↦
            forward_fresh s request route
              (ap named_route e ∙ both_parse value.lease_id value.generation route p) f
        | inr (kept, _, h') ↦ finish_release_fresh (forward link s request route).0 route kept h'
      ]

  dispatch_fresh :
      (s : HostBrokerSession (HelperProtocol B)) (request : PrivilegedBridgeClientFrame)
      (now_ms : ℕ) (drawn : Option LeaseId) (payload : Option ClientPayload)
      → request.payload ≡ payload
      → (dispatch link s request now_ms drawn payload).1 ≢ err stale_response
  unfolding dispatch
  dispatch_fresh s request now_ms drawn none e h = cc
  dispatch_fresh s request now_ms drawn (some (acquire_lease value)) e h =
      acquire_fresh s request value now_ms drawn h
  dispatch_fresh s request now_ms drawn (some (renew_lease value)) e h =
      renew_fresh s request now_ms value h
  dispatch_fresh s request now_ms drawn (some (release_lease value)) e h =
      release_at_fresh s request value (parse_route value.lease_id value.generation) e refl h
  dispatch_fresh s request now_ms drawn (some (input_command value)) e h =
      ground (arith, forward_authorized_fresh s request now_ms)
  dispatch_fresh s request now_ms drawn (some (send_secure_attention value)) e h =
      ground (arith, forward_authorized_fresh s request now_ms)
  dispatch_fresh s request now_ms drawn (some (authenticate value)) e h = cc
  dispatch_fresh s request now_ms drawn (some (register_helper value)) e h = cc
  dispatch_fresh s request now_ms drawn (some other) e h =
      forward_authorized_fresh s request now_ms h

  -- Over the Helper of helper.rs, whatever its native backend does and whatever frames are refused
  -- on the way between the two programs, no request fails in the broker for a stale response:
  -- every answer that arrives passes the broker's test of id, number and route.
  pub handle_never_stale :
      (s : HostBrokerSession (HelperProtocol B)) (request : PrivilegedBridgeClientFrame)
      (now_ms : ℕ) (drawn : Option LeaseId)
      → (handle link s request now_ms drawn).1 ≢ err stale_response
  unfolding handle
  handle_never_stale s request now_ms drawn h =
      dispatch_fresh s request now_ms drawn request.payload refl h

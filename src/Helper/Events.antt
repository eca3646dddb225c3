-- ===== src/Helper/Events.antt =====
-- How the Helper numbers its events, and the route that it names in them.
use roammand.Base.{
  ℕ, ◌+◌, ◌<◌, ◌≡◌, refl, sym, ap, subst, ◌∙◌, inl, inr, Option, none, some, Text, ok, err, Call,
  Result-cases, u64_size, arith, checked_add, if-ok,
}
use roammand.Messages.{
  ClientPayload, start_peer, PrivilegedBridgeClientFrame, PrivilegedBridgeServerFrame,
  StartPrivilegedPeerRequest, restart_peer,
}
use roammand.Broker.Routing.{ProxyRoute, response_route}
use roammand.Helper.Answers.{WellFormed, parse_route-WellFormed}
use roammand.Helper.Gate
use roammand.Helper.Frames.{
  HelperProtocolError, backend_failed, ProxyEvent, event_frame, parse_route,
}
use roammand.Helper.Protocol.{
  HelperBackend, HelperProtocol, Reply, on_backend, fail_closed, handle_inner, handle_payload,
  answer_peer, accept_command, open_peer, attach_or_authorize, close_on_failure, handle, polled,
  bind_event, number_event, try_event, bind_route, Polled, Opening,
}

event_frame_route :
    (decimal : ℕ → Text) (route : ProxyRoute) (sequence : ℕ) (event : ProxyEvent)
    → WellFormed route
    → response_route (event_frame decimal route sequence event) ≡ ok route
unfolding event_frame response_route
event_frame_route decimal route sequence event w = ground arith

-- The route that a gate holds, if any, is well formed.
abbrev pub Formed : Option ProxyRoute → Type 0
Formed none = Unit {0}
Formed (some route) = WellFormed route

module _ {B : Type 0} (api : HelperBackend B) where
  -- What an event that is published did to the Helper.
  pub record Published (p : HelperProtocol B) (frame : PrivilegedBridgeServerFrame)
      (after : HelperProtocol B) (route : ProxyRoute) : Type 0 where
    pub held : p.gate.route ≡ some route
    pub same_route : response_route frame ≡ ok route
    pub numbered : frame.sequence ≡ p.next_event_sequence
    pub advances : after.next_event_sequence ≡ p.next_event_sequence + 1
    pub fits : after.next_event_sequence < u64_size
    pub same_gate : after.gate ≡ p.gate
    pub alive : after.failed ≡ p.failed

  number_event-Published :
      (decimal : ℕ → Text) (p : HelperProtocol B) (route : ProxyRoute) (event : ProxyEvent)
      (frame : PrivilegedBridgeServerFrame)
      → p.gate.route ≡ some route
      → WellFormed route
      → let r = number_event api decimal p route event (checked_add p.next_event_sequence 1) in
        r.1 ≡ ok (some frame) → Published p frame r.0 route
  unfolding number_event
  number_event-Published decimal p route event frame e w h =
      let number = event_frame decimal route p.next_event_sequence event in
      let same = event_frame_route decimal route p.next_event_sequence event w in
      record {
        held = e;
        same_route = ground (arith, same);
        numbered = unfold event_frame in ground arith;
        advances = ground arith;
        fits = ground arith;
        same_gate = ground arith;
        alive = ground arith;
      }

  bind_route-Published :
      (decimal : ℕ → Text) (p : HelperProtocol B) (event : ProxyEvent) (held : Option ProxyRoute)
      (frame : PrivilegedBridgeServerFrame)
      → p.gate.route ≡ held
      → Formed held
      → (bind_route api decimal p event held).1 ≡ ok (some frame)
      → (route : ProxyRoute) × Published p frame (bind_route api decimal p event held).0 route
  unfolding bind_route
  bind_route-Published decimal p event none frame e w h = absurd (ground arith)
  bind_route-Published decimal p event (some route) frame e w h =
      (route, number_event-Published decimal p route event frame e w h)

  polled-Published :
      (decimal : ℕ → Text) (p : HelperProtocol B)
      (call : Call B HelperProtocolError (Option ProxyEvent)) (frame : PrivilegedBridgeServerFrame)
      → Formed p.gate.route
      → (polled api decimal (on_backend api p call)).1 ≡ ok (some frame)
      → (route : ProxyRoute) × Published p frame
          (polled api decimal (on_backend api p call)).0
          route
  unfolding polled bind_event
  polled-Published decimal p (b, err e) frame w h = absurd (ground arith)
  polled-Published decimal p (b, ok none) frame w h = absurd (ground arith)
  polled-Published decimal p (b, ok (some event)) frame w h =
      let (route, x) =
        bind_route-Published decimal (record p { backend = b }) event p.gate.route frame refl w h in
      (
        route,
        record {
          held = x.held;
          same_route = x.same_route;
          numbered = x.numbered;
          advances = x.advances;
          fits = x.fits;
          same_gate = x.same_gate;
          alive = x.alive;
        },
      )

  -- An event that the Helper publishes, holding a well-formed route if any, takes the next number
  -- and names the route that the Helper holds; the number after it is one higher and fits a u64,
  -- and neither the gate nor the failure flag moves.
  pub try_event-Published :
      (decimal : ℕ → Text) (p : HelperProtocol B) (frame : PrivilegedBridgeServerFrame)
      → Formed p.gate.route
      → (try_event api decimal p).1 ≡ ok (some frame)
      → (route : ProxyRoute) × Published p frame (try_event api decimal p).0 route
  unfolding try_event
  try_event-Published decimal p frame w h =
      let call = api.try_event p.backend in
      let (_, e) =
        if-ok p.failed (p, err backend_failed) (polled api decimal (on_backend api p call))
          (some frame) refl h in
      let (route, x) = polled-Published decimal p call frame w (ap (λ c. c.1) (sym e) ∙ h) in
      (route, subst (λ (c : Polled api). Published p frame c.0 route) (sym e) x)

  attach-Formed :
      (p : HelperProtocol B) (route : ProxyRoute)
      → WellFormed route
      → Formed p.gate.route
      → Formed (attach_or_authorize api p route).0.gate.route
  unfolding attach_or_authorize Gate.attach
  attach-Formed p route w f = ground arith

  answer_peer-Formed :
      (operation : Opening api) (p : HelperProtocol B) (request : PrivilegedBridgeClientFrame)
      (value : StartPrivilegedPeerRequest)
      → Formed p.gate.route
      → Formed (answer_peer api operation p request value).0.gate.route
  unfolding answer_peer open_peer
  answer_peer-Formed operation p request value f =
      elim (Result-cases (parse_route value.lease_id value.generation)) [
        | inr (x, e) ↦ ground arith
        | inl (route, e) ↦
            let w = parse_route-WellFormed value.lease_id value.generation route e in
            ground (arith, attach-Formed p route w f)
      ]

  payload-Formed :
      (p : HelperProtocol B) (request : PrivilegedBridgeClientFrame)
      (payload : Option ClientPayload)
      → Formed p.gate.route
      → Formed (handle_payload api p request payload).0.gate.route
  unfolding handle_payload accept_command Gate.release
  payload-Formed p request (some (start_peer value)) f =
      answer_peer-Formed api.start p request value f
  payload-Formed p request (some (restart_peer value)) f =
      answer_peer-Formed api.restart p request value f
  payload-Formed p request payload f = ground arith

  close_on_failure-Formed :
      (r : Reply api) → Formed r.0.gate.route → Formed (close_on_failure api r).0.gate.route
  unfolding close_on_failure fail_closed Gate.release
  close_on_failure-Formed (p, ok response) f = f
  close_on_failure-Formed (p, err backend_failed) f = ground arith
  close_on_failure-Formed (p, err other) f = f

  -- While the Helper holds no route or a well-formed one, a request, failed or not, leaves it so.
  pub handle-Formed :
      (p : HelperProtocol B) (request : PrivilegedBridgeClientFrame)
      → Formed p.gate.route
      → Formed (handle api p request).0.gate.route
  unfolding handle
  handle-Formed p request f =
      let done =
        close_on_failure-Formed (handle_inner api p request)
          (unfold handle_inner in payload-Formed p request request.payload f) in
      ground (arith, done)

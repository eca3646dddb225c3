-- ===== src/Helper/Answers.antt =====
-- What each part of `handle_inner` did when it succeeded (helper.rs).
use roammand.Base.{
  ℕ, ◌<◌, ◌≡◌, refl, ap, sym, ◌∙◌, inl, inr, false, some, Bytes, bytes_eq_iff, length, ok, err,
  Call, and_then, and_then-ok, Option-cases, Result-cases, arith, if-ok,
}
use roammand.Messages.{
  StartPrivilegedPeerRequest, PrivilegedBridgeClientFrame, PrivilegedBridgeServerFrame,
}
use roammand.Broker.Routing.{ProxyRoute, route_eq_iff, response_route}
use roammand.Broker.Forwarding.{Echoes}
use roammand.Helper.Gate
use roammand.Helper.Gate.{HelperLeaseGate}
use roammand.Helper.Frames.{
  HelperProtocolError, backend_failed, PeerAnswer, parse_route, accepted_response, answer_response,
}
use roammand.Helper.Protocol.{
  HelperBackend, HelperProtocol, Reply, attach_or_authorize, authorize, Opening, open_peer,
  answer_peer, accept_command, handle_inner, close_on_failure, handle,
}

-- What a parsed route is.
abbrev pub WellFormed : ProxyRoute → Type 0
WellFormed route = (length route.lease_id ≡ 16) × (0 < route.generation)

pub parse_route-WellFormed :
    (id : Bytes) (generation : ℕ) (route : ProxyRoute)
    → parse_route id generation ≡ ok route
    → WellFormed route
unfolding parse_route
parse_route-WellFormed id generation route h = ground arith

pub response_route-accepted :
    (request : PrivilegedBridgeClientFrame) (route : ProxyRoute)
    → WellFormed route
    → response_route (accepted_response request route) ≡ ok route
unfolding response_route accepted_response
response_route-accepted request route w = ground arith

pub response_route-answer :
    (request : PrivilegedBridgeClientFrame) (route : ProxyRoute) (answer : PeerAnswer)
    → WellFormed route
    → response_route (answer_response request route answer) ≡ ok route
unfolding response_route answer_response
response_route-answer request route answer w = ground arith

module _ {B : Type 0} (api : HelperBackend B) where
  pub authorize_ok :
      (p : HelperProtocol B) (id : Bytes) (generation : ℕ) (route : ProxyRoute)
      → authorize api p id generation ≡ ok route
      → (parse_route id generation ≡ ok route) × (p.gate.route ≡ some route)
  unfolding authorize Gate.authorize
  authorize_ok p id generation route h = elim (Result-cases (parse_route id generation)) [
    | inr (x, e) ↦ absurd (ground arith)
    | inl (named, e) ↦ elim (Option-cases p.gate.route) [
      | inl f ↦ absurd (ground arith)
      | inr (held, f) ↦ ground (arith, bytes_eq_iff held.lease_id named.lease_id)
    ]
  ]

  pub attach_or_authorize_ok :
      (p : HelperProtocol B) (route : ProxyRoute) (u : Unit {0})
      → (attach_or_authorize api p route).1 ≡ ok u
      → (attach_or_authorize api p route).0 ≡ record p { gate = record { route = some route } }
  unfolding attach_or_authorize Gate.attach
  attach_or_authorize_ok p route u h = elim (Option-cases p.gate.route) [
    | inl e ↦ ground arith
    | inr (held, e) ↦ ground (arith, route_eq_iff held route)
  ]

  pub open_peer_keeps :
      (operation : Opening api) (p : HelperProtocol B) (value : StartPrivilegedPeerRequest)
      → (open_peer api operation p value).0.gate ≡ p.gate
  unfolding open_peer
  open_peer_keeps operation p value = ground arith

  -- What an answered request went through.
  pub record Answered (request : PrivilegedBridgeClientFrame) (id : Bytes) (generation : ℕ)
      (response : PrivilegedBridgeServerFrame) (route : ProxyRoute) : Type 0 where
    pub named : parse_route id generation ≡ ok route
    pub echoes : Echoes request response
    pub same_route : response_route response ≡ ok route

  pub answer_peer_ok :
      (operation : Opening api) (p : HelperProtocol B) (request : PrivilegedBridgeClientFrame)
      (value : StartPrivilegedPeerRequest) (response : PrivilegedBridgeServerFrame)
      → (answer_peer api operation p request value).1 ≡ ok response
      → (route : ProxyRoute) × Answered request value.lease_id value.generation response route
        × ((answer_peer api operation p request value).0.gate ≡ record { route = some route })
  unfolding answer_peer
  answer_peer_ok operation p request value response h =
      let finish = λ (route : ProxyRoute) (q : HelperProtocol B) (answer : PeerAnswer).
        let r : Reply api = (q, ok (answer_response request route answer)) in r in
      let opening = λ (route : ProxyRoute) (q : HelperProtocol B) (u : Unit {0}).
        and_then (open_peer api operation q value) (finish route) in
      let (route, named, h', e) =
        and_then-ok (p, parse_route value.lease_id value.generation)
          (λ q route. and_then (attach_or_authorize api q route) (opening route)) h in
      let (u, attached, h'', e') =
        and_then-ok (attach_or_authorize api p route) (opening route) h' in
      let q = (attach_or_authorize api p route).0 in
      let (answer, _, h''', e'') =
        and_then-ok (open_peer api operation q value) (finish route) h'' in
      let w = parse_route-WellFormed value.lease_id value.generation route named in
      (
        route,
        record {
          named = named;
          echoes = unfold answer_response in ground arith;
          same_route = ground (arith, response_route-answer request route answer w);
        },
        ap (λ c. c.0.gate) (e ∙ e' ∙ e'')
            ∙ open_peer_keeps operation q value
            ∙ ap (λ x. x.gate) (attach_or_authorize_ok p route u attached),
      )

  pub accept_command_ok :
      (p : HelperProtocol B) (request : PrivilegedBridgeClientFrame) (id : Bytes) (generation : ℕ)
      (operation : HelperProtocol B → Call (HelperProtocol B) HelperProtocolError (Unit {0}))
      (response : PrivilegedBridgeServerFrame)
      → (accept_command api p request id generation operation).1 ≡ ok response
      → (route : ProxyRoute) × Answered request id generation response route
        × (p.gate.route ≡ some route)
        × ((operation p).1 ≡ ok tt)
        × ((accept_command api p request id generation operation).0 ≡ (operation p).0)
  unfolding accept_command
  accept_command_ok p request id generation operation response h =
      let finish = λ (route : ProxyRoute) (q : HelperProtocol B) (u : Unit {0}).
        let r : Reply api = (q, ok (accepted_response request route)) in r in
      let (route, allowed, h', e) =
        and_then-ok (p, authorize api p id generation)
          (λ q route. and_then (operation q) (finish route)) h in
      let (u, done, h'', e') = and_then-ok (operation p) (finish route) h' in
      let (named, held) = authorize_ok p id generation route allowed in
      let w = parse_route-WellFormed id generation route named in
      (
        route,
        record {
          named = named;
          echoes = unfold accepted_response in ground arith;
          same_route = ground (arith, response_route-accepted request route w);
        },
        held,
        done,
        ap (λ c. c.0) (e ∙ e'),
      )

  pub close_on_failure_ok :
      (r : Reply api) (response : PrivilegedBridgeServerFrame)
      → (close_on_failure api r).1 ≡ ok response
      → (r.1 ≡ ok response) × (close_on_failure api r ≡ r)
  unfolding close_on_failure
  close_on_failure_ok (p, ok x) response h = (h, refl)
  close_on_failure_ok (p, err backend_failed) response h = cc
  close_on_failure_ok (p, err other) response h = cc

  pub handle_inner_ok :
      (p : HelperProtocol B) (request : PrivilegedBridgeClientFrame)
      (response : PrivilegedBridgeServerFrame)
      → (handle api p request).1 ≡ ok response
      → ((handle_inner api p request).1 ≡ ok response)
        × (handle api p request ≡ handle_inner api p request)
        × (p.failed ≡ false)
  unfolding handle
  handle_inner_ok p request response h =
      let r = close_on_failure api (handle_inner api p request) in
      let (alive, e) = if-ok p.failed (p, err backend_failed) r response refl h in
      let (g, f) =
        close_on_failure_ok (handle_inner api p request) response (ap (λ c. c.1) (sym e) ∙ h) in
      (g, e ∙ f, alive)

-- ===== src/Helper/Binding.antt =====
-- The Helper acts only for the route that it holds.
use roammand.Base.{
  ℕ, ◌≡◌, refl, ap, sym, subst, ◌∙◌, Option, none, some, Bytes, Result, ok, err, Call, arith,
}
use roammand.Messages.{
  StartPrivilegedPeerRequest, ClientPayload, release_lease, start_peer, restart_peer,
  add_ice_candidate, send_secure_attention, input_command, close_peer, PrivilegedBridgeClientFrame,
  PrivilegedBridgeServerFrame,
}
use roammand.Broker.Routing.{ProxyRoute, response_route}
use roammand.Broker.Forwarding.{Echoes}
use roammand.Helper.Gate
use roammand.Helper.Gate.{HelperLeaseGate}
use roammand.Helper.Frames.{HelperProtocolError, invalid_message, parse_route}
use roammand.Helper.Protocol.{
  HelperBackend, HelperProtocol, Reply, on_backend, Opening, answer_peer, accept_command,
  handle_payload, handle_inner, handle, add_candidate, close_and_release,
}
use roammand.Helper.Answers.{answer_peer_ok, accept_command_ok, handle_inner_ok}

-- The lease reference of a request for the Helper, with the name of its kind.
pub data Kind : Type 0 where
  opens commands ends foreign : Kind

abbrev pub kind : Option ClientPayload → Kind
kind (some (start_peer value)) = opens
kind (some (restart_peer value)) = opens
kind (some (add_ice_candidate value)) = commands
kind (some (input_command value)) = commands
kind (some (send_secure_attention value)) = commands
kind (some (close_peer value)) = commands
kind (some (release_lease value)) = ends
kind _ = foreign

abbrev pub named_route : Option ClientPayload → Result HelperProtocolError ProxyRoute
named_route (some (start_peer value)) = parse_route value.lease_id value.generation
named_route (some (restart_peer value)) = parse_route value.lease_id value.generation
named_route (some (add_ice_candidate value)) = parse_route value.lease_id value.generation
named_route (some (input_command value)) = parse_route value.lease_id value.generation
named_route (some (send_secure_attention value)) = parse_route value.lease_id value.generation
named_route (some (close_peer value)) = parse_route value.lease_id value.generation
named_route (some (release_lease value)) = parse_route value.lease_id value.generation
named_route _ = err invalid_message

module _ {B : Type 0} (api : HelperBackend B) where
  -- The route of the Helper around a request that it answers.
  abbrev pub Holds : Kind → ProxyRoute → HelperProtocol B → HelperProtocol B → Type 0
  Holds opens route p after = after.gate.route ≡ some route
  Holds commands route p after = (p.gate.route ≡ some route) × (after.gate.route ≡ some route)
  Holds ends route p after = (p.gate.route ≡ some route) × (after.gate.route ≡ none)
  Holds foreign route p after = ⊥

  -- An answer names the route of its request, which the Helper holds.
  pub record IsBound (p : HelperProtocol B) (request : PrivilegedBridgeClientFrame)
      (payload : Option ClientPayload) (response : PrivilegedBridgeServerFrame)
      (after : HelperProtocol B) : Type 0 where
    pub route : ProxyRoute
    pub named : named_route payload ≡ ok route
    pub echoes : Echoes request response
    pub same_route : response_route response ≡ ok route
    pub holds : Holds (kind payload) route p after

  close_and_release_ends :
      (p : HelperProtocol B)
      → (close_and_release api p).1 ≡ ok tt
      → (close_and_release api p).0.gate.route ≡ none
  unfolding Gate.release
  close_and_release_ends p h = ground arith

  command-IsBound :
      (p : HelperProtocol B) (request : PrivilegedBridgeClientFrame)
      (payload : Option ClientPayload) (id : Bytes) (generation : ℕ)
      (operation : HelperProtocol B → Call (HelperProtocol B) HelperProtocolError (Unit {0}))
      (response : PrivilegedBridgeServerFrame)
      → named_route payload ≡ parse_route id generation
      → ((route : ProxyRoute)
          → p.gate.route ≡ some route
          → (operation p).1 ≡ ok tt
          → Holds (kind payload) route p (operation p).0)
      → (accept_command api p request id generation operation).1 ≡ ok response
      → IsBound p request payload response (accept_command api p request id generation operation).0
  command-IsBound p request payload id generation operation response same holds h =
      let (route, a, held, done, e) =
        accept_command_ok api p request id generation operation response h in
      record {
        route = route;
        named = same ∙ a.named;
        echoes = a.echoes;
        same_route = a.same_route;
        holds = subst (Holds (kind payload) route p) (sym e) (holds route held done);
      }

  opening-IsBound :
      (p : HelperProtocol B) (request : PrivilegedBridgeClientFrame)
      (payload : Option ClientPayload) (value : StartPrivilegedPeerRequest)
      (operation : Opening api) (response : PrivilegedBridgeServerFrame)
      → named_route payload ≡ parse_route value.lease_id value.generation
      → kind payload ≡ opens
      → (answer_peer api operation p request value).1 ≡ ok response
      → IsBound p request payload response (answer_peer api operation p request value).0
  opening-IsBound p request payload value operation response same e h =
      let (route, a, gate) = answer_peer_ok api operation p request value response h in
      let after = (answer_peer api operation p request value).0 in
      record {
        route = route;
        named = same ∙ a.named;
        echoes = a.echoes;
        same_route = a.same_route;
        holds = subst (λ k. Holds k route p after) (sym e) (ap (λ g. g.route) gate);
      }

  payload-IsBound :
      (p : HelperProtocol B) (request : PrivilegedBridgeClientFrame)
      (payload : Option ClientPayload) (response : PrivilegedBridgeServerFrame)
      → (handle_payload api p request payload).1 ≡ ok response
      → IsBound p request payload response (handle_payload api p request payload).0
  unfolding handle_payload
  payload-IsBound p request (some (start_peer value)) response h =
      opening-IsBound p request _ value api.start response refl refl h
  payload-IsBound p request (some (restart_peer value)) response h =
      opening-IsBound p request _ value api.restart response refl refl h
  payload-IsBound p request (some (release_lease value)) response h =
      command-IsBound p request _ value.lease_id value.generation (close_and_release api) response
        refl (λ route held done. (held, close_and_release_ends p done)) h
  payload-IsBound p request (some (add_ice_candidate value)) response h =
      command-IsBound p request _ value.lease_id value.generation (add_candidate api value) response
        refl (λ route held done. (held, ground arith)) h
  payload-IsBound p request (some (input_command value)) response h =
      command-IsBound p request _ value.lease_id value.generation
        (λ q. on_backend api q (api.input q.backend value)) response refl
        (λ route held done. (held, held)) h
  payload-IsBound p request (some (send_secure_attention value)) response h =
      command-IsBound p request _ value.lease_id value.generation
        (λ q. on_backend api q (api.secure_attention q.backend)) response refl
        (λ route held done. (held, held)) h
  payload-IsBound p request (some (close_peer value)) response h =
      command-IsBound p request _ value.lease_id value.generation
        (λ q. on_backend api q (api.close q.backend)) response refl
        (λ route held done. (held, held)) h
  payload-IsBound p request payload response h = cc

  -- If the Helper answers a request, the request names a well-formed route, and the answer carries
  -- its id, its number and this route; a start or restart leaves the Helper holding the route, and
  -- any other request found it held and leaves it held, unless it is the release, which drops it.
  pub handle-IsBound :
      (p : HelperProtocol B) (request : PrivilegedBridgeClientFrame)
      (response : PrivilegedBridgeServerFrame)
      → (handle api p request).1 ≡ ok response
      → IsBound p request request.payload response (handle api p request).0
  handle-IsBound p request response h =
      let (done, e, _) = handle_inner_ok api p request response h in
      subst (λ (c : Reply api). IsBound p request request.payload response c.0) (sym e)
        (unfold handle_inner in
          payload-IsBound p request request.payload response (unfold handle_inner in done))

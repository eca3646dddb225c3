-- ===== src/Helper/Failure.antt =====
-- How the Helper fails closed, and how it numbers its events.
use roammand.Base.{
  ℕ, ◌≡◌, sym, ap, subst, ◌∙◌, true, false, Option, none, some, Text, ok, err, arith,
}
use roammand.Messages.{ClientPayload, start_peer, PrivilegedBridgeClientFrame}
use roammand.Helper.Gate
use roammand.Helper.Frames.{backend_failed}
use roammand.Helper.Protocol.{
  HelperBackend, HelperProtocol, Reply, fail_closed, handle_inner, handle_payload, answer_peer,
  accept_command, open_peer, attach_or_authorize, close_on_failure, handle, try_event,
}

module _ {B : Type 0} (api : HelperBackend B) where
  -- A Helper that has failed holds no route.
  abbrev pub IsClosed : HelperProtocol B → Type 0
  IsClosed p = (p.failed ≡ true) × (p.gate.route ≡ none)

  fail_closed-IsClosed : (p : HelperProtocol B) → p.failed ≡ false → IsClosed (fail_closed api p)
  unfolding fail_closed Gate.release
  fail_closed-IsClosed p e = ground arith

  payload-failed :
      (p : HelperProtocol B) (request : PrivilegedBridgeClientFrame)
      (payload : Option ClientPayload)
      → (handle_payload api p request payload).0.failed ≡ p.failed
  unfolding handle_payload answer_peer accept_command open_peer attach_or_authorize Gate.attach
      Gate.release
  payload-failed p request (some (start_peer value)) = ground arith
  payload-failed p request payload = ground arith

  close_on_failure_lem :
      (r : Reply api)
      → r.0.failed ≡ false
      → (close_on_failure api r).1 ≡ err backend_failed
      → IsClosed (close_on_failure api r).0
        × ((close_on_failure api r).0.backend ≡ api.fail_closed r.0.backend)
  unfolding close_on_failure fail_closed Gate.release
  close_on_failure_lem (p, ok x) e h = cc
  close_on_failure_lem (p, err backend_failed) e h = ground arith
  close_on_failure_lem (p, err other) e h = cc

  handle-alive :
      (p : HelperProtocol B) (request : PrivilegedBridgeClientFrame)
      → p.failed ≡ false
      → handle api p request ≡ close_on_failure api (handle_inner api p request)
  unfolding handle
  handle-alive p request e = ground arith

  refused :
      (decimal : ℕ → Text) (p : HelperProtocol B) (next : PrivilegedBridgeClientFrame)
      → p.failed ≡ true
      → (handle api p next ≡ (p, err backend_failed))
        × (try_event api decimal p ≡ (p, err backend_failed))
  unfolding handle try_event
  refused decimal p next e = ground arith

  -- A request to a Helper that has not failed which ends in a backend error leaves the Helper
  -- failed, with its route dropped and the backend told to fail closed; from then on each request
  -- and poll is refused and changes nothing.
  pub handle_failure :
      (decimal : ℕ → Text) (p : HelperProtocol B) (request next : PrivilegedBridgeClientFrame)
      → p.failed ≡ false
      → (handle api p request).1 ≡ err backend_failed
      → let after = (handle api p request).0 in
        IsClosed after
        × (after.backend ≡ api.fail_closed (handle_inner api p request).0.backend)
        × (handle api after next ≡ (after, err backend_failed))
        × (try_event api decimal after ≡ (after, err backend_failed))
  unfolding handle_inner
  handle_failure decimal p request next e h =
      let alive = handle-alive p request e in
      let r : Reply api = handle_inner api p request in
      let (closed, told) =
        close_on_failure_lem r (payload-failed p request request.payload ∙ e)
          (ap (λ c. c.1) (sym alive) ∙ h) in
      let shut = subst (λ (c : Reply api). IsClosed c.0) (sym alive) closed in
      let (a, b) = refused decimal (handle api p request).0 next shut.0 in
      (shut, ap (λ c. c.0.backend) alive ∙ told, a, b)

-- ===== src/Broker/Replies.antt =====
-- Every reply of the broker answers the request that it was asked.
use roammand.Base.{ℕ, ◌≡◌, Option, none, some, Result, ok, err, and_then-ok, arith}
use roammand.Lease.{LeaseId}
use roammand.Messages.{
  ClientPayload, acquire_lease, renew_lease, release_lease, authenticate, register_helper,
  PrivilegedBridgeClientFrame, PrivilegedBridgeServerFrame, AcquirePrivilegedLeaseRequest,
}
use roammand.Broker.Routing.{ProxyRoute, BrokerProtocolError, parse_route, lease_response}
use roammand.Broker.Session.{BrokerHelper, HostBrokerSession, forward, acquire}
use roammand.Broker.Forwarding.{Echoes, forward_ok, forward_authorized_ok}
use roammand.Broker.Handle.{
  handle, handle_payload, renew_route, release_route, finish_release, dispatch,
}

module _ {H : Type 0} (api : BrokerHelper H) where
  acquire-Echoes :
      (s : HostBrokerSession H) (request : PrivilegedBridgeClientFrame)
      (value : AcquirePrivilegedLeaseRequest) (now_ms : ℕ) (drawn : Option LeaseId)
      (response : PrivilegedBridgeServerFrame)
      → (acquire api s request value now_ms drawn).1 ≡ ok response
      → Echoes request response
  unfolding acquire lease_response
  acquire-Echoes s request value now_ms drawn response h = ground arith

  renew-Echoes :
      (s : HostBrokerSession H) (request : PrivilegedBridgeClientFrame) (now_ms : ℕ)
      (route : Result BrokerProtocolError ProxyRoute) (response : PrivilegedBridgeServerFrame)
      → (renew_route api s request now_ms route).1 ≡ ok response
      → Echoes request response
  unfolding renew_route lease_response
  renew-Echoes s request now_ms route response h = ground arith

  finish_release_reply :
      (s : HostBrokerSession H) (route : ProxyRoute) (kept response : PrivilegedBridgeServerFrame)
      → (finish_release api s route kept).1 ≡ ok response
      → kept ≡ response
  unfolding finish_release
  finish_release_reply s route kept response h = ground arith

  release-Echoes :
      (s : HostBrokerSession H) (request : PrivilegedBridgeClientFrame)
      (route : Result BrokerProtocolError ProxyRoute) (response : PrivilegedBridgeServerFrame)
      → (release_route api s request route).1 ≡ ok response
      → Echoes request response
  unfolding release_route
  release-Echoes s request (err e) response h = cc
  release-Echoes s request (ok route) response h =
      let (kept, e, h', _) =
        and_then-ok (forward api s request route) (λ t r. finish_release api t route r) h in
      rw (← finish_release_reply (forward api s request route).0 route kept response h')
        (forward_ok api s request route kept e).0

  payload-Echoes :
      (s : HostBrokerSession H) (request : PrivilegedBridgeClientFrame) (now_ms : ℕ)
      (drawn : Option LeaseId) (payload : ClientPayload) (response : PrivilegedBridgeServerFrame)
      → (handle_payload api s request now_ms drawn payload).1 ≡ ok response
      → Echoes request response
  unfolding handle_payload
  payload-Echoes s request now_ms drawn (acquire_lease value) response h =
      acquire-Echoes s request value now_ms drawn response h
  payload-Echoes s request now_ms drawn (renew_lease value) response h =
      renew-Echoes s request now_ms (parse_route value.lease_id value.generation) response h
  payload-Echoes s request now_ms drawn (release_lease value) response h =
      release-Echoes s request (parse_route value.lease_id value.generation) response h
  payload-Echoes s request now_ms drawn (authenticate value) response h = cc
  payload-Echoes s request now_ms drawn (register_helper value) response h = cc
  payload-Echoes s request now_ms drawn p response h =
      (forward_authorized_ok api s request now_ms response (ground arith)).2.echoes

  dispatch-Echoes :
      (s : HostBrokerSession H) (request : PrivilegedBridgeClientFrame) (now_ms : ℕ)
      (drawn : Option LeaseId) (payload : Option ClientPayload)
      (response : PrivilegedBridgeServerFrame)
      → (dispatch api s request now_ms drawn payload).1 ≡ ok response
      → Echoes request response
  unfolding dispatch
  dispatch-Echoes s request now_ms drawn none response h = cc
  dispatch-Echoes s request now_ms drawn (some payload) response h =
      payload-Echoes s request now_ms drawn payload response h

  -- Whatever the Helper answers, a reply of the broker carries the id and the number of the
  -- request that it replies to.
  pub handle-Echoes :
      (s : HostBrokerSession H) (request : PrivilegedBridgeClientFrame) (now_ms : ℕ)
      (drawn : Option LeaseId) (response : PrivilegedBridgeServerFrame)
      → (handle api s request now_ms drawn).1 ≡ ok response
      → Echoes request response
  unfolding handle
  handle-Echoes s request now_ms drawn response h =
      dispatch-Echoes s request now_ms drawn request.payload response h

-- ===== src/Tests/Helpers.antt =====
-- A Helper whose native backend counts its calls, one that accepts them and one that fails.
use roammand.Base.{
  ℕ, ◌+◌, ◌≡◌, ◌≢◌, refl, true, false, ◌&&◌, ◌==◌, none, some, [], ◌∷◌, Text, bytes_eq, Call,
  Result, ◌>>◌, ok, err, arith,
}
use roammand.Broker.Routing.{ProxyRoute, stale_response}
use roammand.Broker.Handle
use roammand.Helper.Gate
use roammand.Helper.Frames.{
  HelperProtocolError, backend_failed, PeerAnswer, local_stop, accepted_response, event_frame,
  parse_route,
}
use roammand.Helper.Protocol.{
  HelperBackend, HelperProtocol, handle_inner, handle, try_event, close_on_failure, handle_payload,
  accept_command, authorize,
}
use roammand.Helper.Binding.{IsBound, handle-IsBound}
use roammand.Helper.Failure.{IsClosed, handle_failure}
use roammand.Helper.Events.{Published, try_event-Published}
use roammand.Helper.Bridge.{Passage, link, handle_never_stale}
use roammand.Tests.Leases.{lease_id}
use roammand.Tests.Brokers.{request, session_with}

-- What the backend answers to every call.
abbrev backend : (ℕ → Result HelperProtocolError (Unit {0})) → HelperBackend ℕ
backend reply =
    let opened : ℕ → Call ℕ HelperProtocolError PeerAnswer =
      λ n. (n + 1, reply n >> ok (record { sdp = []; dtls_fingerprint_sha256 = [] })) in
    record {
      start = λ n configuration offer name. opened n;
      restart = λ n configuration offer name. opened n;
      add_candidate = λ n candidate. (n + 1, reply n);
      input = λ n command. (n + 1, reply n);
      secure_attention = λ n. (n + 1, reply n);
      close = λ n. (n + 1, reply n);
      try_event = λ n. (n + 1, reply n >> ok (some local_stop));
      fail_closed = λ n. 0;
    }

abbrev accepting : HelperBackend ℕ
accepting = backend λ n. ok tt

abbrev failing : HelperBackend ℕ
failing = backend λ n. err backend_failed

abbrev route : ProxyRoute
route = record { lease_id = lease_id; generation = 7 }

abbrev helper : HelperProtocol ℕ
helper = record {
  gate = record { route = some route };
  backend = 4;
  next_event_sequence = 1;
  failed = false;
}

-- Any numbering will do.
abbrev decimal : ℕ → Text
decimal n = (b'0' + n) ∷ []

handled : (handle accepting helper request).1 ≡ ok (accepted_response request route)
unfolding handle handle_inner close_on_failure handle_payload accept_command authorize parse_route
    Gate.authorize bytes_eq
handled = refl

handle-IsBound_example :
    IsBound accepting helper request request.payload
      (accepted_response request route)
      (handle accepting helper request).0
handle-IsBound_example =
    handle-IsBound accepting helper request (accepted_response request route) handled

refused : (handle failing helper request).1 ≡ err backend_failed
unfolding handle handle_inner close_on_failure handle_payload accept_command authorize parse_route
    Gate.authorize bytes_eq
refused = refl

handle_failure_example :
    let after = (handle failing helper request).0 in
    IsClosed failing after
    × (after.backend ≡ 0)
    × (handle failing after request ≡ (after, err backend_failed))
    × (try_event failing decimal after ≡ (after, err backend_failed))
handle_failure_example = handle_failure failing decimal helper request request refl refused

published :
    (try_event accepting decimal helper).1 ≡ ok (some (event_frame decimal route 1 local_stop))
unfolding try_event
published = refl

try_event-Published_example :
    (r : ProxyRoute) × Published accepting helper
      (event_frame decimal route 1 local_stop)
      (try_event accepting decimal helper).0
      r
try_event-Published_example =
    try_event-Published accepting decimal helper (event_frame decimal route 1 local_stop)
      (refl, omega arith) published

-- Every request passes, and a response with its id and number.
abbrev rpc_test : Passage
rpc_test = record {
  request_passes = λ request. true;
  response_passes = λ request response.
      bytes_eq response.request_id request.request_id && response.sequence == request.sequence;
  event_passes = λ event. true;
}

handle_never_stale_example :
    (Handle.handle (link accepting decimal rpc_test) (session_with helper) request 2000 none).1
    ≢ err stale_response
handle_never_stale_example =
    handle_never_stale accepting decimal rpc_test (session_with helper) request 2000 none

-- ===== src/Tests/Proxies.antt =====
-- A proxy over a wire that answers each request, and over one that answers with a wrong number.
use roammand.Proxy.Parts.{send, close, migrate, try_recv, received}
use roammand.Base.{ℕ, ◌+◌, ◌≡◌, refl, true, none, List, [], ◌∷◌, ok, bytes_eq}
use roammand.Broker.Routing.{ProxyRoute, route_eq}
use roammand.Proxy.{
  BridgeRequest, BridgeWire, ProxyShared, WireCall, text, new_proxy_parts, perform, send_next,
  answered, check_response, fail_closed,
}
use roammand.Proxy.Logged.{
  ProxyCall, on_input, on_migrate, on_close, on_receive, run, after_call, logged,
}
use roammand.Proxy.Silent.{run_failed}
use roammand.Peer.Types.{PeerAnswer}

-- The state of the wire counts its requests.
abbrev answer : {T : Type 0} → ℕ → T → WireCall ℕ T
answer skew value w request = (
  w + 1,
  ok (record { route = request.route; sequence = request.sequence + skew; value = value }),
)

abbrev no_answer : PeerAnswer
no_answer = record { sdp = []; dtls_fingerprint_sha256 = [] }

abbrev wire : ℕ → BridgeWire ℕ
wire skew = record {
  start = λ config sdp. answer skew no_answer;
  restart = λ config sdp. answer skew no_answer;
  add_candidate = λ candidate. answer skew tt;
  input = λ input. answer skew tt;
  close = answer skew tt;
  release = answer skew tt;
  try_event = λ w. (w, ok none);
  fail_wire = λ w. w + 100;
}

abbrev first_route : ProxyRoute
first_route = record { lease_id = 1 ∷ []; generation = 1 }

abbrev second_route : ProxyRoute
second_route = record { lease_id = 2 ∷ []; generation = 2 }

abbrev calls : List ProxyCall
calls =
    on_input (text [])
    ∷ on_input (text [])
    ∷ on_receive
    ∷ on_migrate second_route
    ∷ on_input (text [])
    ∷ on_close
    ∷ []

-- The numbers of the log, the newest first.
abbrev numbers : List BridgeRequest → List ℕ
numbers [] = []
numbers (request ∷ log) = request.sequence ∷ numbers log

numbered :
    numbers (run (logged (wire 0)) (new_proxy_parts first_route ([], 0)) calls).wire.0
    ≡ 3 ∷ 2 ∷ 1 ∷ 2 ∷ 1 ∷ []
unfolding run after_call close send perform migrate try_recv new_proxy_parts send_next answered
    check_response route_eq bytes_eq received
numbered = refl

-- A response with a wrong number.
abbrev failed_proxy : ProxyShared ℕ
failed_proxy = after_call (wire 1) (new_proxy_parts first_route 0) (on_input (text []))

has_failed : failed_proxy.failed ≡ true
unfolding after_call send perform new_proxy_parts send_next answered check_response route_eq
    bytes_eq fail_closed
has_failed = refl

run_failed_example :
    ((run (wire 1) failed_proxy calls).failed ≡ true)
    × ((run (wire 1) failed_proxy calls).wire ≡ failed_proxy.wire)
run_failed_example = run_failed (wire 1) failed_proxy calls has_failed

-- ===== src/Tests/Peers.antt =====
-- A session whose peer and input sink count their calls.
use roammand.Base.{
  ℕ, ◌+◌, ◌≡◌, ◌↔◌, ◌⊎◌, refl, true, false, Option, none, some, List, [], ◌∷◌, Bytes, bytes_eq,
  length, is_ok, IsNext, ok, err, text_len,
}
use roammand.Peer.Types.{
  HostWebRtcError, input_failure, relay, PeerBackend, RemoteInputSink, ReliableEvent, on_text,
  ReliableInputEnvelope, on_move, pos, PointerFastEnvelope,
}
use roammand.Peer.Session.{connected, closed, HostPeerSession, close}
use roammand.Peer.Input.{InputDisposition, handle_reliable, handle_pointer_fast}
use roammand.Peer.Gate.{SessionLease, SessionGate, acquire, release, acquire_grants}
use roammand.Peer.Closing.{IsShut, close_shuts}
use roammand.Peer.States.{Operation, connect, reliable, shut, run, run-IsShut}
use roammand.Peer.Sequences.{
  TakesInput, Admitted, PointerOutcome, handle_reliable_ok, handle_pointer_fast_order,
}

abbrev peers : PeerBackend ℕ
peers = record {
  start = λ n config sdp. (n + 1, ok (record { sdp = sdp; dtls_fingerprint_sha256 = [] }));
  restart = λ n config sdp. (n + 1, ok (record { sdp = sdp; dtls_fingerprint_sha256 = [] }));
  add_remote_ice_candidate = λ n candidate. (n + 1, ok tt);
  close = λ n. (n + 1, ok tt);
}

-- A sink that fails to release the input.
abbrev inputs : RemoteInputSink ℕ
inputs = record {
  keyboard = λ n action usage bits. (n + 1, ok tt);
  pointer_button = λ n button action x y. (n + 1, ok tt);
  pointer_move = λ n x y bits. (n + 1, ok tt);
  pointer_scroll = λ n x y. (n + 1, ok tt);
  text = λ n text. (n + 1, ok tt);
  release_all = λ n. (n + 1, err input_failure);
}

abbrev session_id : Bytes
session_id = 5 ∷ 1 ∷ 2 ∷ 3 ∷ 4 ∷ 5 ∷ 6 ∷ 7 ∷ 8 ∷ 9 ∷ 10 ∷ 11 ∷ 12 ∷ 13 ∷ 14 ∷ 15 ∷ []

abbrev open_session : HostPeerSession ℕ ℕ
open_session = record {
  session_id = session_id;
  input_allowed = true;
  config = record { ice_transport_policy = relay };
  peer = 3;
  input = 5;
  state = connected;
  last_reliable_sequence = 8;
  last_pointer_sequence = 20;
  pressed_keys = 4 ∷ [];
  pressed_buttons = 1 ∷ [];
  input_cleanup_pending = false;
}

abbrev shut_session : HostPeerSession ℕ ℕ
shut_session = record open_session {
  state = closed;
  pressed_keys = [];
  pressed_buttons = [];
  input_cleanup_pending = true;
}

shut_session-IsShut : IsShut shut_session
shut_session-IsShut = record { is_closed = refl; no_keys = refl; no_buttons = refl }

-- A byte string decodes to a text, in an envelope numbered by its first byte.
abbrev reliable_of : Bytes → Option ReliableInputEnvelope
reliable_of [] = none
reliable_of (n ∷ text) =
    some (record { session_id = session_id; sequence = n; event = some (on_text text) })

abbrev pointer_of : Bytes → Option PointerFastEnvelope
pointer_of [] = none
pointer_of (n ∷ _) =
    some
      (record { session_id = session_id; sequence = n; event = some (on_move (pos 1) (pos 2) 0) })

close_shuts_example :
    let after = (close peers inputs open_session).0 in
    IsShut after
    × (after.input ≡ 6)
    × (after.peer ≡ 4)
    × (after.input_cleanup_pending ≡ true)
    × ((close peers inputs open_session).1 ≡ err input_failure)
close_shuts_example = close_shuts peers inputs open_session (λ e. cc)

calls : List Operation
calls = connect ∷ reliable (9 ∷ 97 ∷ []) ∷ shut ∷ []

run-IsShut_example :
    IsShut (run peers inputs reliable_of pointer_of calls shut_session)
    × ((run peers inputs reliable_of pointer_of calls shut_session).peer ≡ 3)
run-IsShut_example =
    run-IsShut peers inputs reliable_of pointer_of calls shut_session shut_session-IsShut

taken :
    (handle_reliable peers inputs reliable_of open_session (9 ∷ 97 ∷ [])).1
    ≡ ok InputDisposition.applied
unfolding handle_reliable bytes_eq text_len
taken = refl

handle_reliable_ok_example :
    (sequence : ℕ) × (event : ReliableEvent) × Admitted peers inputs open_session
      (reliable_of (9 ∷ 97 ∷ []))
      sequence
      event
    × ((handle_reliable peers inputs reliable_of open_session
          (9 ∷ 97 ∷ [])).0.last_reliable_sequence
        ≡ sequence)
handle_reliable_ok_example =
    handle_reliable_ok peers inputs reliable_of open_session (9 ∷ 97 ∷ []) InputDisposition.applied
      taken

-- An empty text.
turned_down :
    (handle_reliable peers inputs reliable_of open_session (9 ∷ [])).1
    ≡ err HostWebRtcError.invalid_input_envelope
unfolding handle_reliable bytes_eq
turned_down = refl

handle_pointer_fast_order_example :
    let r = handle_pointer_fast peers inputs pointer_of open_session (21 ∷ []) in
    ((envelope : PointerFastEnvelope) × (pointer_of (21 ∷ []) ≡ some envelope)
      × TakesInput open_session envelope.session_id
      × PointerOutcome peers inputs open_session envelope.sequence r)
    ⊎ ((e : HostWebRtcError) × (r ≡ (open_session, err e)))
handle_pointer_fast_order_example =
    handle_pointer_fast_order peers inputs pointer_of open_session (21 ∷ [])

abbrev gate : SessionGate
gate = record { active = none; generation = 4 }

granted : (acquire gate session_id).1 ≡ ok (record { session_id = session_id; generation = 5 })
unfolding acquire
granted = refl

acquire_grants_example :
    let lease : SessionLease = record { session_id = session_id; generation = 5 } in
    let stale : SessionLease = record { session_id = session_id; generation = 4 } in
    let held = (acquire gate session_id).0 in
    (gate.active ≡ none)
    × (length session_id ≡ 16)
    × (lease.session_id ≡ session_id)
    × IsNext gate.generation lease.generation
    × ((acquire held session_id).0 ≡ held)
    × (is_ok (acquire held session_id).1 ≡ false)
    × (((release held stale).1 ≡ ok tt) ↔ (stale ≡ lease))
    × ((stale ≡ lease) ⊎ (release held stale ≡ (held, err HostWebRtcError.invalid_lease)))
    × ((release held lease).0.active ≡ none)
acquire_grants_example =
    acquire_grants gate session_id (record { session_id = session_id; generation = 5 }) session_id
      (record { session_id = session_id; generation = 4 }) granted

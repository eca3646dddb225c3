-- ===== src/Peer/Session.antt =====
-- `HostPeerSession` of session.rs: its state, and the calls that are not about input.
use roammand.Base.{
  ℕ, Bool, true, false, ◌&&◌, ◌||◌, not, List, [], ◌∷◌, Bytes, Text, text_len, is_empty, any,
  length, leb, ◌==◌, Result, ok, err, is_ok, Call, and_then, ◌>>◌, if◌then◌else◌, ensure,
}
use roammand.Peer.Types.{
  HostWebRtcError, invalid_session, invalid_permissions, invalid_state, invalid_sdp, invalid_answer,
  SessionConfig, PeerIceCandidate, PeerAnswer, SessionPermission, view_screen, control_input,
  PeerBackend, RemoteInputSink,
}

abbrev pub session_id_bytes : ℕ
session_id_bytes = 16

abbrev pub maximum_sdp_bytes : ℕ
maximum_sdp_bytes = 131072

abbrev pub nonce_or_hash_bytes : ℕ
nonce_or_hash_bytes = 32

pub data HostSessionState : Type 0 where
  fresh negotiating connected reconnecting closing closed : HostSessionState

-- The sets are kept as lists of their members; buttons by their numbers.
pub record HostPeerSession (P I : Type 0) : Type 0 where
  pub session_id : Bytes
  pub input_allowed : Bool
  pub config : SessionConfig
  pub peer : P
  pub input : I
  pub state : HostSessionState
  pub last_reliable_sequence : ℕ
  pub last_pointer_sequence : ℕ
  pub pressed_keys : List ℕ
  pub pressed_buttons : List ℕ
  pub input_cleanup_pending : Bool

permission_eq : SessionPermission → SessionPermission → Bool
permission_eq SessionPermission.unspecified SessionPermission.unspecified = true
permission_eq view_screen view_screen = true
permission_eq control_input control_input = true
permission_eq _ _ = false

unfoldable pub has : SessionPermission → List SessionPermission → Bool
unfolding permission_eq
has p ps = any (permission_eq p) ps

-- A `BTreeSet` of them is as large as the list.
unfoldable pub all_distinct : List SessionPermission → Bool
unfolding has
all_distinct [] = true
all_distinct (p ∷ ps) = not (has p ps) && all_distinct ps

unfoldable pub validate_permissions : List SessionPermission → Result HostWebRtcError (Unit {0})
unfolding all_distinct
validate_permissions permissions =
    if is_empty permissions
      || not (has view_screen permissions)
      || has SessionPermission.unspecified permissions
    then err invalid_permissions
    else if all_distinct permissions
    then ok tt
    else err invalid_permissions

-- HostPeerSession::new
unfoldable pub new :
    {P I : Type 0}
    → Bytes
    → List SessionPermission
    → SessionConfig
    → P
    → I
    → Result HostWebRtcError (HostPeerSession P I)
unfolding validate_permissions
new session_id permissions config peer input = do
  ensure (length session_id == session_id_bytes) invalid_session
  validate_permissions permissions
  ok (record {
    session_id = session_id;
    input_allowed = has control_input permissions;
    config = config;
    peer = peer;
    input = input;
    state = fresh;
    last_reliable_sequence = 0;
    last_pointer_sequence = 0;
    pressed_keys = [];
    pressed_buttons = [];
    input_cleanup_pending = false;
  })

unfoldable pub valid_sdp : Text → Bool
valid_sdp sdp = not (is_empty sdp) && leb (text_len sdp) maximum_sdp_bytes

unfoldable pub valid_answer : PeerAnswer → Bool
unfolding valid_sdp
valid_answer answer =
    valid_sdp answer.sdp && length answer.dtls_fingerprint_sha256 == nonce_or_hash_bytes

module _ {P I : Type 0} (peers : PeerBackend P) (inputs : RemoteInputSink I) where
  abbrev pub Reply : Type 0 → Type 0
  Reply A = Call (HostPeerSession P I) HostWebRtcError A

  -- The pressed sets are cleared whether or not the sink releases its input.
  unfoldable pub release_all : HostPeerSession P I → Reply (Unit {0})
  release_all s =
      let (input, r) = inputs.release_all s.input in
      (
        record s {
          input = input;
          input_cleanup_pending = not (is_ok r);
          pressed_keys = [];
          pressed_buttons = [];
        },
        r,
      )

  -- Result::and
  abbrev pub both :
      Result HostWebRtcError (Unit {0})
      → Result HostWebRtcError (Unit {0})
      → Result HostWebRtcError (Unit {0})
  both (ok _) r = r
  both (err e) r = err e

  unfoldable pub close_open : HostPeerSession P I → Reply (Unit {0})
  unfolding release_all
  close_open s =
      let (s', input_result) = release_all (record s { state = closing }) in
      let (peer, peer_result) = peers.close s'.peer in
      (record s' { peer = peer; state = closed }, both input_result peer_result)

  unfoldable pub close_state : HostSessionState → HostPeerSession P I → Reply (Unit {0})
  unfolding close_open
  close_state closed s = if s.input_cleanup_pending then release_all s else (s, ok tt)
  close_state _ s = close_open s

  unfoldable pub close : HostPeerSession P I → Reply (Unit {0})
  unfolding close_state
  close s = close_state s.state s

  -- `let _ = self.close(); return Err(error)`
  unfoldable pub close_with : {A : Type 0} → HostPeerSession P I → HostWebRtcError → Reply A
  close_with s e = ((close s).0, err e)

  check_answer : HostPeerSession P I → Result HostWebRtcError PeerAnswer → Reply PeerAnswer
  check_answer s (err e) = close_with s e
  check_answer s (ok answer) =
      if valid_answer answer
      then (record s { state = negotiating }, ok answer)
      else close_with s invalid_answer

  start_peer : HostPeerSession P I → Text → Reply PeerAnswer
  unfolding check_answer valid_answer
  start_peer s offer_sdp =
      if not (valid_sdp offer_sdp)
      then (s, err invalid_sdp)
      else let (peer, r) = peers.start s.peer s.config offer_sdp in
        check_answer (record s { peer = peer }) r

  accept_offer_in : HostSessionState → HostPeerSession P I → Text → Reply PeerAnswer
  unfolding start_peer
  accept_offer_in fresh s offer_sdp = start_peer s offer_sdp
  accept_offer_in _ s offer_sdp = (s, err invalid_state)

  unfoldable pub accept_offer : HostPeerSession P I → Text → Reply PeerAnswer
  unfolding accept_offer_in close_with
  accept_offer s offer_sdp = accept_offer_in s.state s offer_sdp

  mark_connected_in : HostSessionState → HostPeerSession P I → Reply (Unit {0})
  mark_connected_in negotiating s = (record s { state = connected }, ok tt)
  mark_connected_in connected s = (record s { state = connected }, ok tt)
  mark_connected_in reconnecting s = (record s { state = connected }, ok tt)
  mark_connected_in _ s = (s, err invalid_state)

  unfoldable pub mark_connected : HostPeerSession P I → Reply (Unit {0})
  unfolding mark_connected_in
  mark_connected s = mark_connected_in s.state s

  leave_connection : HostPeerSession P I → Reply (Unit {0})
  unfolding release_all
  leave_connection s = and_then (release_all s) λ s' _. (record s' { state = reconnecting }, ok tt)

  begin_reconnect_in : HostSessionState → HostPeerSession P I → Reply (Unit {0})
  unfolding leave_connection
  begin_reconnect_in reconnecting s = (s, ok tt)
  begin_reconnect_in connected s = leave_connection s
  begin_reconnect_in negotiating s = leave_connection s
  begin_reconnect_in _ s = (s, err invalid_state)

  unfoldable pub begin_reconnect : HostPeerSession P I → Reply (Unit {0})
  unfolding begin_reconnect_in
  begin_reconnect s = begin_reconnect_in s.state s

  restart_peer : HostPeerSession P I → Text → Reply PeerAnswer
  restart_peer s offer_sdp =
      if not (valid_sdp offer_sdp)
      then (s, err invalid_sdp)
      else let (peer, r) = peers.restart s.peer s.config offer_sdp in
        and_then (record s { state = reconnecting; peer = peer }, r)
          λ s' answer.
            if valid_answer answer
            then (record s' { state = negotiating }, ok answer)
            else (s', err invalid_answer)

  accept_reconnect_in : HostSessionState → HostPeerSession P I → Text → Reply PeerAnswer
  unfolding restart_peer
  accept_reconnect_in reconnecting s offer_sdp = restart_peer s offer_sdp
  accept_reconnect_in negotiating s offer_sdp = restart_peer s offer_sdp
  accept_reconnect_in _ s offer_sdp = (s, err invalid_state)

  unfoldable pub accept_reconnect_offer : HostPeerSession P I → Text → Reply PeerAnswer
  unfolding accept_reconnect_in
  accept_reconnect_offer s offer_sdp = accept_reconnect_in s.state s offer_sdp

  add_candidate : HostPeerSession P I → PeerIceCandidate → Reply (Unit {0})
  add_candidate s candidate =
      let (peer, r) = peers.add_remote_ice_candidate s.peer candidate in
      (record s { peer = peer }, r)

  add_candidate_in : HostSessionState → HostPeerSession P I → PeerIceCandidate → Reply (Unit {0})
  unfolding add_candidate
  add_candidate_in negotiating s candidate = add_candidate s candidate
  add_candidate_in connected s candidate = add_candidate s candidate
  add_candidate_in _ s candidate = (s, err invalid_state)

  unfoldable pub add_remote_ice_candidate :
      HostPeerSession P I → PeerIceCandidate → Reply (Unit {0})
  unfolding add_candidate_in
  add_remote_ice_candidate s candidate = add_candidate_in s.state s candidate

-- ===== src/Peer/Closing.antt =====
-- Closing a session, and what an injection failure leads to.
use roammand.Base.{◌≡◌, ◌≢◌, not, ◌&&◌, if◌then◌else◌, [], is_ok, arith}
use roammand.Peer.Types.{PeerBackend, RemoteInputSink}
use roammand.Peer.Session.{closed, HostPeerSession, close, both}

-- Nothing is pressed, and nothing will be.
pub record IsShut {P I : Type 0} (s : HostPeerSession P I) : Type 0 where
  pub is_closed : s.state ≡ closed
  pub no_keys : s.pressed_keys ≡ []
  pub no_buttons : s.pressed_buttons ≡ []

module _ {P I : Type 0} (peers : PeerBackend P) (inputs : RemoteInputSink I) where
  -- Closing an open session shuts it with nothing pressed whatever the peer and the input sink
  -- answer: each is asked once, an error of the sink is returned rather than one of the peer, and
  -- is remembered for a later attempt.
  pub close_shuts :
      (s : HostPeerSession P I)
      → s.state ≢ closed
      → let after = (close peers inputs s).0 in
        IsShut after
        × (after.input ≡ (inputs.release_all s.input).0)
        × (after.peer ≡ (peers.close s.peer).0)
        × (after.input_cleanup_pending ≡ not (is_ok (inputs.release_all s.input).1))
        × ((close peers inputs s).1
            ≡ both peers inputs (inputs.release_all s.input).1 (peers.close s.peer).1)
  unfolding close
  close_shuts s n = ground arith

  -- Closing a session that is shut leaves the peer alone, asks the input sink again exactly while
  -- an earlier release of the input has failed, and keeps the session shut.
  pub close_again :
      (s : HostPeerSession P I)
      → IsShut s
      → let again = (close peers inputs s).0 in
        IsShut again
        × (again.peer ≡ s.peer)
        × (again.input
            ≡ (if s.input_cleanup_pending then (inputs.release_all s.input).0 else s.input))
        × (again.input_cleanup_pending
            ≡ (s.input_cleanup_pending && not (is_ok (inputs.release_all s.input).1)))
  unfolding close
  close_again s shut = ground arith

-- ===== src/Peer/States.antt =====
-- The calls on a session as one step, and what no call does to a closed session.
use roammand.Base.{
  ◌≡◌, ◌⊎◌, refl, ap, sym, subst, ◌∙◌, inl, inr, Option, List, [], ◌∷◌, Bytes, Text,
}
use roammand.Peer.Types.{
  PeerIceCandidate, PeerBackend, RemoteInputSink, ReliableInputEnvelope, PointerFastEnvelope,
}
use roammand.Peer.Session.{
  closed, HostPeerSession, close, accept_offer, mark_connected, begin_reconnect,
  accept_reconnect_offer, add_remote_ice_candidate,
}
use roammand.Peer.Input.{
  require_input_ready, admit_reliable, handle_reliable, admit_pointer, handle_pointer_fast,
}
use roammand.Peer.Closing.{IsShut, close_again}

-- A call on the session.
pub data Operation : Type 0 where
  offer : Text → Operation
  connect reconnect : Operation
  reconnect_offer : Text → Operation
  candidate : PeerIceCandidate → Operation
  reliable pointer_fast : Bytes → Operation
  shut : Operation

module _ {P I : Type 0} (peers : PeerBackend P) (inputs : RemoteInputSink I)
    (reliable_of : Bytes → Option ReliableInputEnvelope)
    (pointer_of : Bytes → Option PointerFastEnvelope) where
  -- The session after a call, whatever the call returned.
  abbrev pub step : Operation → HostPeerSession P I → HostPeerSession P I
  step (offer sdp) s = (accept_offer peers inputs s sdp).0
  step connect s = (mark_connected peers inputs s).0
  step reconnect s = (begin_reconnect peers inputs s).0
  step (reconnect_offer sdp) s = (accept_reconnect_offer peers inputs s sdp).0
  step (candidate c) s = (add_remote_ice_candidate peers inputs s c).0
  step (reliable bytes) s = (handle_reliable peers inputs reliable_of s bytes).0
  step (pointer_fast bytes) s = (handle_pointer_fast peers inputs pointer_of s bytes).0
  step shut s = (close peers inputs s).0

  abbrev pub run : List Operation → HostPeerSession P I → HostPeerSession P I
  run [] s = s
  run (op ∷ ops) s = run ops (step op s)

  -- A closed session answers a call by an error and stays as it was, `close` apart.
  step_closed :
      (op : Operation) (s : HostPeerSession P I) → s.state ≡ closed → (op ≡ shut) ⊎ (step op s ≡ s)
  unfolding accept_offer mark_connected begin_reconnect accept_reconnect_offer
      add_remote_ice_candidate handle_reliable admit_reliable handle_pointer_fast admit_pointer
      require_input_ready
  step_closed (offer sdp) s c = inr (rw c refl)
  step_closed connect s c = inr (rw c refl)
  step_closed reconnect s c = inr (rw c refl)
  step_closed (reconnect_offer sdp) s c = inr (rw c refl)
  step_closed (candidate x) s c = inr (rw c refl)
  step_closed (reliable bytes) s c = inr (rw c refl)
  step_closed (pointer_fast bytes) s c = inr (rw c refl)
  step_closed shut s c = inl refl

  step-IsShut :
      (op : Operation) (s : HostPeerSession P I)
      → IsShut s
      → IsShut (step op s) × ((step op s).peer ≡ s.peer)
  step-IsShut op s h = elim (step_closed op s h.is_closed) [
    | inl e ↦ let (shut_again, same, _, _) = close_again peers inputs s h in rw e (shut_again, same)
    | inr e ↦ (subst IsShut (sym e) h, ap (λ t. t.peer) e)
  ]

  -- A closed session stays closed through every sequence of calls with nothing pressed, and the
  -- state of its peer is never touched again.
  pub run-IsShut :
      (ops : List Operation) (s : HostPeerSession P I)
      → IsShut s
      → IsShut (run ops s) × ((run ops s).peer ≡ s.peer)
  run-IsShut [] s h = (h, refl)
  run-IsShut (op ∷ ops) s h =
      let (h', e) = step-IsShut op s h in
      let (h'', e') = run-IsShut ops (step op s) h' in (h'', e' ∙ e)

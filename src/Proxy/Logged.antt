-- ===== src/Proxy/Logged.antt =====
-- The calls of the four parts of crates/privileged-bridge/src/proxy.rs, in any order, and a wire that
-- records the requests that it is given, the newest first.
use roammand.Base.{List, [], ◌∷◌, Text}
use roammand.Broker.Routing.{ProxyRoute}
use roammand.Peer.Types.{SessionConfig, PeerIceCandidate}
use roammand.Proxy.{BridgeRequest, ValidatedInput, WireCall, BridgeWire, ProxyShared}
use roammand.Proxy.Parts.{close, proxy_peer, send, try_recv, migrate}

pub data ProxyCall : Type 0 where
  on_start on_restart : SessionConfig → Text → ProxyCall
  on_candidate : PeerIceCandidate → ProxyCall
  on_input : ValidatedInput → ProxyCall
  on_close on_receive : ProxyCall
  on_migrate : ProxyRoute → ProxyCall

module _ {W : Type 0} (wires : BridgeWire W) where
  unfoldable pub after_call : ProxyShared W → ProxyCall → ProxyShared W
  unfolding proxy_peer
  after_call s (on_start config sdp) = ((proxy_peer wires).start s config sdp).0
  after_call s (on_restart config sdp) = ((proxy_peer wires).restart s config sdp).0
  after_call s (on_candidate candidate) =
      ((proxy_peer wires).add_remote_ice_candidate s candidate).0
  after_call s (on_input input) = (send wires s input).0
  after_call s on_close = (close wires s).0
  after_call s on_receive = (try_recv wires s).0
  after_call s (on_migrate route) = (migrate wires s route).0

  unfoldable pub run : ProxyShared W → List ProxyCall → ProxyShared W
  run s [] = s
  run s (call ∷ calls) = run (after_call s call) calls

  -- A wire beside the log of its requests.
  abbrev pub Logged : Type 0
  Logged = List BridgeRequest × W

  abbrev pub record_call : {T : Type 0} → WireCall W T → WireCall Logged T
  record_call call l request = let c = call l.1 request in ((request ∷ l.0, c.0), c.1)

  abbrev pub logged : BridgeWire Logged
  logged = record {
    start = λ config sdp. record_call (wires.start config sdp);
    restart = λ config sdp. record_call (wires.restart config sdp);
    add_candidate = λ candidate. record_call (wires.add_candidate candidate);
    input = λ input. record_call (wires.input input);
    close = record_call wires.close;
    release = record_call wires.release;
    try_event = λ l. let c = wires.try_event l.1 in ((l.0, c.0), c.1);
    fail_wire = λ l. (l.0, wires.fail_wire l.1);
  }

-- ===== src/Proxy/Parts.antt =====
-- The four parts of crates/privileged-bridge/src/proxy.rs over the state that they share.
use roammand.Base.{
  ℕ, true, false, not, ◌||◌, Option, none, some, bytes_eq, ◌==◌, Result, ok, err, Call, map_err,
  checked_add, saturating_add, if◌then◌else◌,
}
use roammand.Broker.Routing.{ProxyRoute, route_eq}
use roammand.Helper.Frames.{ProxyEvent}
use roammand.Peer.Types.{HostWebRtcError, peer_failure, input_failure, PeerBackend, RemoteInputSink}
use roammand.Proxy.{
  BridgeResponse, ProxyError, stale_route, stale_response, failed_closed, invalid_migration,
  ValidatedInput, keyboard, pointer_button, pointer_move, pointer_scroll, text, release_all,
  BridgeWire, ProxyShared, fail_closed, perform,
}

-- `Result::and`
unfoldable pub and_result :
    Result ProxyError (Unit {0}) → Result ProxyError (Unit {0}) → Result ProxyError (Unit {0})
and_result (ok a) r = r
and_result (err e) r = err e

abbrev pub failing_with :
    {W T : Type 0}
    → HostWebRtcError
    → Call (ProxyShared W) ProxyError T
    → Call (ProxyShared W) HostWebRtcError T
failing_with error (s, r) = (s, map_err error r)

module _ {W : Type 0} (wires : BridgeWire W) where
  unfoldable pub close : ProxyShared W → Call (ProxyShared W) HostWebRtcError (Unit {0})
  close s =
      let close_call = perform wires s wires.close in
      let release_call = perform wires close_call.0 wires.release in
      if s.closed then (s, ok tt) else (
        record release_call.0 { closed = true },
        map_err peer_failure (and_result close_call.1 release_call.1),
      )

  -- ProxyPeer
  unfoldable pub proxy_peer : PeerBackend (ProxyShared W)
  proxy_peer = record {
    start = λ s config offer_sdp.
        failing_with peer_failure (perform wires s (wires.start config offer_sdp));
    restart = λ s config offer_sdp.
        failing_with peer_failure (perform wires s (wires.restart config offer_sdp));
    add_remote_ice_candidate =
        λ s candidate. failing_with peer_failure (perform wires s (wires.add_candidate candidate));
    close = close;
  }

  unfoldable pub send :
      ProxyShared W → ValidatedInput → Call (ProxyShared W) HostWebRtcError (Unit {0})
  send s input = failing_with input_failure (perform wires s (wires.input input))

  -- ProxyInputSink
  unfoldable pub proxy_input_sink : RemoteInputSink (ProxyShared W)
  proxy_input_sink = record {
    keyboard = λ s action usage bits. send s (keyboard action usage bits);
    pointer_button = λ s button action x y. send s (pointer_button button action x y);
    pointer_move = λ s x y bits. send s (pointer_move x y bits);
    pointer_scroll = λ s dx dy. send s (pointer_scroll dx dy);
    text = λ s t. send s (text t);
    release_all = λ s. send s release_all;
  }

  -- The number of an event against the last one.
  unfoldable pub check_sequence :
      ProxyShared W
      → BridgeResponse ProxyEvent
      → Option ℕ
      → Call (ProxyShared W) ProxyError (Option ProxyEvent)
  check_sequence s response none = (s, err stale_response)
  check_sequence s response (some expected) =
      if not (response.sequence == expected)
      then (fail_closed wires s, err stale_response)
      else (record s { last_event_sequence = response.sequence }, ok (some response.value))

  unfoldable pub received :
      ProxyShared W
      → Call W ProxyError (Option (BridgeResponse ProxyEvent))
      → Call (ProxyShared W) ProxyError (Option ProxyEvent)
  received s (wire, err error) = (fail_closed wires (record s { wire = wire }), err error)
  received s (wire, ok none) = (record s { wire = wire }, ok none)
  received s (wire, ok (some response)) =
      if not (route_eq response.route s.route)
      then (fail_closed wires (record s { wire = wire }), err stale_route)
      else check_sequence (record s { wire = wire }) response (checked_add s.last_event_sequence 1)

  -- ProxyEvents::try_recv
  unfoldable pub try_recv : ProxyShared W → Call (ProxyShared W) ProxyError (Option ProxyEvent)
  try_recv s = if s.failed then (s, err failed_closed) else received s (wires.try_event s.wire)

  -- ProxyRouteControl::migrate
  unfoldable pub migrate : ProxyShared W → ProxyRoute → Call (ProxyShared W) ProxyError (Unit {0})
  migrate s route =
      if not (route.generation == saturating_add s.route.generation 1)
        || bytes_eq route.lease_id s.route.lease_id
      then (s, err invalid_migration)
      else (
        record s {
          route = route;
          next_request_sequence = 1;
          last_event_sequence = 0;
          closed = false;
        },
        ok tt,
      )

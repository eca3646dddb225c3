-- ===== src/Proxy/Silent.antt =====
-- A proxy of crates/privileged-bridge/src/proxy.rs that has failed.
use roammand.Base.{◌≡◌, refl, true, List, [], ◌∷◌, arith}
use roammand.Proxy.{BridgeWire, ProxyShared, WireCall, perform}
use roammand.Proxy.Parts.{close, send, try_recv, migrate}
use roammand.Proxy.Logged.{
  ProxyCall, on_start, on_restart, on_candidate, on_input, on_close, on_receive, on_migrate,
  after_call, run,
}

module _ {W : Type 0} (wires : BridgeWire W) where
  perform_failed :
      {T : Type 0} (s : ProxyShared W) (call : WireCall W T)
      → s.failed ≡ true
      → (perform wires s call).0 ≡ s
  unfolding perform
  perform_failed s call f = rw f refl

  abbrev IsSilent : ProxyShared W → ProxyShared W → Type 0
  IsSilent s t = (t.failed ≡ true) × (t.wire ≡ s.wire)

  after_call_failed :
      (s : ProxyShared W) (call : ProxyCall)
      → s.failed ≡ true
      → IsSilent s (after_call wires s call)
  unfolding after_call send close try_recv migrate perform
  after_call_failed s (on_start config sdp) f = ground arith
  after_call_failed s (on_restart config sdp) f = ground arith
  after_call_failed s (on_candidate candidate) f = ground arith
  after_call_failed s (on_input input) f = ground arith
  after_call_failed s on_close f = ground arith
  after_call_failed s on_receive f = ground arith
  after_call_failed s (on_migrate route) f = ground arith

  -- A proxy that has failed stays failed through any history of calls, migrations included, and
  -- none of them touches its wire.
  pub run_failed :
      (s : ProxyShared W) (calls : List ProxyCall)
      → s.failed ≡ true
      → ((run wires s calls).failed ≡ true) × ((run wires s calls).wire ≡ s.wire)
  unfolding run
  run_failed s [] f = (f, refl)
  run_failed s (call ∷ calls) f =
      let (g, e) = after_call_failed s call f in
      ground (arith, run_failed (after_call wires s call) calls g)

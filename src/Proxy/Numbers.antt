-- ===== src/Proxy/Numbers.antt =====
-- The numbers of the requests that crates/privileged-bridge/src/proxy.rs sends.
use roammand.Base.{ℕ, suc, ◌≤◌, ◌<◌, ◌≡◌, ◌⊎◌, List, [], ◌∷◌, Call, u64_size}
use roammand.Broker.Routing.{ProxyRoute}
use roammand.Proxy.{BridgeRequest, BridgeWire, ProxyShared}
use roammand.Proxy.Logged.{Logged}

-- A request has the route of the one before and the number after it; or it is the first one of a
-- later route.
abbrev pub IsNext : BridgeRequest → BridgeRequest → Type 0
IsNext last request =
    ((request.route ≡ last.route) × (request.sequence ≡ suc last.sequence))
    ⊎ ((last.route.generation ≤ request.route.generation) × (request.sequence ≡ 1))

-- The newest first; the oldest has the number 1.
abbrev pub AreNumbered : List BridgeRequest → Type 0
AreNumbered [] = Unit {0}
AreNumbered (request ∷ []) = request.sequence ≡ 1
AreNumbered (request ∷ last ∷ log) = IsNext last request × AreNumbered (last ∷ log)

-- What the next request will be.
abbrev NextIs : List BridgeRequest → ProxyRoute → ℕ → Type 0
NextIs [] route next = next ≡ 1
NextIs (last ∷ log) route next = IsNext last (record { route = route; sequence = next })

module _ {W : Type 0} (wires : BridgeWire W) where
  abbrev IsNumbered : ProxyShared (Logged wires) → Type 0
  IsNumbered s =
      AreNumbered s.wire.0
      × NextIs s.wire.0 s.route s.next_request_sequence
      × (s.route.generation < u64_size)

  abbrev Leaves : {E T : Type 0} → Call (ProxyShared (Logged wires)) E T → Type 0
  Leaves c = IsNumbered c.0

-- ===== src/Route/Effects.antt =====
-- What an event changes, and the effects that it asks for.
use roammand.Base.{
  ℕ, ◌+◌, ◌<◌, ◌≡◌, ◌⊎◌, refl, sym, subst, ◌∙◌, inl, inr, Option-cases, Call, Bool, true, false,
  Option, none, some, List, [], ◌∷◌, ◌++◌, u64_size, ok, is_ok, arith,
}
use roammand.Route.{
  RouteSession, RouteEvent, session_available, route_lost, helper_crashed, broker_restarted,
  host_disconnected, logged_out, SessionAction, freeze_input, release_all_input, peer_disconnected,
  clear_route, publish_route, SessionError, SessionStateMachine, apply, apply_available,
  apply_unavailable, route_eq,
}
use roammand.Route.Invariant.{IsValid, generation_of, apply-IsValid}

-- The next generation: the first one, or the one after the machine's.
abbrev pub Advances : ℕ → ℕ → Type 0
Advances old next = (old < next) × ((old ≡ 0) ⊎ (next ≡ old + 1))

abbrev pub SameSession : Option RouteSession → RouteSession → Type 0
SameSession none next = Unit {0}
SameSession (some route) next = next.os_session_id ≡ route.os_session_id

-- A new route may be taken: a real session, of the next generation, on the same OS session.
abbrev pub Routable : SessionStateMachine → RouteEvent → Type 0
Routable m (session_available next) =
    (0 < next.os_session_id) × Advances m.generation next.generation × SameSession m.current next
Routable m e = Advances m.generation (generation_of e)

-- The route after the event.
abbrev pub route_after : RouteEvent → Option RouteSession
route_after (session_available next) = some next
route_after e = none

-- The announcement of the event: the new route, or that the old one is gone.
abbrev pub announcement : Option RouteSession → RouteEvent → List SessionAction
announcement old (session_available next) = publish_route next ∷ []
announcement none e = []
announcement (some route) e = clear_route ∷ []

-- A peer in control is stopped before anything is announced.
abbrev pub stopping : Bool → List SessionAction
stopping true = freeze_input ∷ release_all_input ∷ peer_disconnected ∷ []
stopping false = []

abbrev pub moved : SessionStateMachine → RouteEvent → SessionStateMachine
moved m e = record {
  generation = generation_of e;
  current = route_after e;
  controlled_lease = false;
  input_enabled = false;
}

module _ (m : SessionStateMachine) (v : IsValid m) where
  available_moves :
      (next : RouteSession)
      → next.generation < u64_size
      → Routable m (session_available next)
      → apply_available m next ≡ (
        moved m (session_available next),
        ok (stopping m.input_enabled ++ publish_route next ∷ []),
      )
  unfolding apply_available
  available_moves next f r = ground arith

  unavailable_moves :
      (generation : ℕ)
      → generation < u64_size
      → Advances m.generation generation
      → apply_unavailable m generation ≡ (
        moved m (route_lost generation),
        ok (stopping m.input_enabled ++ announcement m.current (route_lost generation)),
      )
  unfolding apply_unavailable
  unavailable_moves generation f r = ground arith

  -- In a valid machine an event of the next generation (for a session: a real one, on the same OS
  -- session) moves the machine there with input disabled; if a peer was in control, freezing
  -- input, releasing all input and disconnecting the peer come first, in this order, and then the
  -- new route is published, or the lost one cleared.
  pub apply_moves :
      (e : RouteEvent)
      → generation_of e < u64_size
      → Routable m e
      → apply m e ≡ (moved m e, ok (stopping m.input_enabled ++ announcement m.current e))
  unfolding apply
  apply_moves (session_available next) f r = available_moves next f r
  apply_moves (route_lost generation) f r = unavailable_moves generation f r
  apply_moves (helper_crashed generation) f r = unavailable_moves generation f r
  apply_moves (broker_restarted generation) f r = unavailable_moves generation f r
  apply_moves (host_disconnected generation) f r = unavailable_moves generation f r
  apply_moves (logged_out generation) f r = unavailable_moves generation f r

route_eq_sound : (a b : RouteSession) → route_eq a b ≡ true → a ≡ b
unfolding route_eq
route_eq_sound a b h = ground arith

-- The machine as it was, or at a later generation and out of control.
abbrev pub Outcome : SessionStateMachine → SessionStateMachine → Type 0
Outcome m n =
    (n ≡ m)
    ⊎ ((m.generation < n.generation) × (n.input_enabled ≡ false) × (n.controlled_lease ≡ false))

-- What becomes of an event that is not routable: it is refused, or it repeats the present route.
abbrev pub Ignored :
    SessionStateMachine
    → RouteEvent
    → Call SessionStateMachine SessionError (List SessionAction)
    → Type 0
Ignored m e r =
    (r.0 ≡ m)
    × ((is_ok r.1 ≡ false)
        ⊎ ((r.1 ≡ ok []) × (generation_of e ≡ m.generation) × (m.current ≡ route_after e)))

module _ (m : SessionStateMachine) (v : IsValid m) where
  available-Ignored :
      (next : RouteSession)
      → next.generation < u64_size
      → ¬ Routable m (session_available next)
      → Ignored m (session_available next) (apply_available m next)
  unfolding apply_available
  available-Ignored next f n = elim (Option-cases m.current) [
    | inl e ↦ ground arith
    | inr (route, e) ↦ ground (arith, route_eq_sound route next)
  ]

  unavailable-Ignored :
      (generation : ℕ)
      → generation < u64_size
      → ¬ Advances m.generation generation
      → Ignored m (route_lost generation) (apply_unavailable m generation)
  unfolding apply_unavailable
  unavailable-Ignored generation f n = ground arith

  -- In a valid machine a u64 event that is not of the next generation (or, for a session, not real
  -- or not on the same OS session) leaves the machine as it was: it is an error, or it repeats the
  -- present generation and route and asks for no effect.
  pub apply-Ignored :
      (e : RouteEvent) → generation_of e < u64_size → ¬ Routable m e → Ignored m e (apply m e)
  unfolding apply
  apply-Ignored (session_available next) f n = available-Ignored next f n
  apply-Ignored (route_lost generation) f n = unavailable-Ignored generation f n
  apply-Ignored (helper_crashed generation) f n = unavailable-Ignored generation f n
  apply-Ignored (broker_restarted generation) f n = unavailable-Ignored generation f n
  apply-Ignored (host_disconnected generation) f n = unavailable-Ignored generation f n
  apply-Ignored (logged_out generation) f n = unavailable-Ignored generation f n

  available-Outcome :
      (next : RouteSession) → next.generation < u64_size → Outcome m (apply_available m next).0
  unfolding apply_available
  available-Outcome next f = ground arith

  unavailable-Outcome :
      (generation : ℕ) → generation < u64_size → Outcome m (apply_unavailable m generation).0
  unfolding apply_unavailable
  unavailable-Outcome generation f = ground arith

  apply-Outcome : (e : RouteEvent) → generation_of e < u64_size → Outcome m (apply m e).0
  unfolding apply
  apply-Outcome (session_available next) f = available-Outcome next f
  apply-Outcome (route_lost generation) f = unavailable-Outcome generation f
  apply-Outcome (helper_crashed generation) f = unavailable-Outcome generation f
  apply-Outcome (broker_restarted generation) f = unavailable-Outcome generation f
  apply-Outcome (host_disconnected generation) f = unavailable-Outcome generation f
  apply-Outcome (logged_out generation) f = unavailable-Outcome generation f

unfoldable pub observe : SessionStateMachine → List RouteEvent → SessionStateMachine
observe m [] = m
observe m (e ∷ es) = observe (apply m e).0 es

abbrev pub EventsFit : List RouteEvent → Type 0
EventsFit [] = Unit {0}
EventsFit (e ∷ es) = (generation_of e < u64_size) × EventsFit es

Outcome-trans : (a b c : SessionStateMachine) → Outcome a b → Outcome b c → Outcome a c
Outcome-trans a b c (inl p) (inl q) = inl (q ∙ p)
Outcome-trans a b c (inl p) (inr q) = subst (λ x. Outcome x c) p (inr q)
Outcome-trans a b c (inr p) (inl q) = subst (Outcome a) (sym q) (inr p)
Outcome-trans a b c (inr p) (inr q) = inr (ground arith)

-- Events alone never give control: after any u64 events a valid machine is as it was, or it has a
-- later generation, and then no lease controls it and input is disabled.
pub observe-Outcome :
    (m : SessionStateMachine) (es : List RouteEvent)
    → IsValid m
    → EventsFit es
    → Outcome m (observe m es)
unfolding observe
observe-Outcome m [] v f = inl refl
observe-Outcome m (e ∷ es) v f =
    Outcome-trans m (apply m e).0 (observe (apply m e).0 es) (apply-Outcome m v e f.0)
      (observe-Outcome (apply m e).0 es (apply-IsValid m v e f.0) f.1)

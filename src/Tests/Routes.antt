-- ===== src/Tests/Routes.antt =====
-- A session that appears, is controlled, and goes away.
use roammand.Base.{◌≡◌, refl, inr, true, some, List, [], ◌∷◌, ok, arith}
use roammand.Route.{
  windows, normal, RouteSession, session_available, route_lost, logged_out, freeze_input,
  release_all_input, peer_disconnected, clear_route, SessionStateMachine, new, apply,
}
use roammand.Route.Invariant.{IsValid, Input, event, control, run, inputs-IsValid}
use roammand.Route.Effects.{
  Outcome, observe, observe-Outcome, apply_moves, apply-Ignored, moved, Ignored,
}

abbrev pub desk : RouteSession
desk = record { platform = windows; os_session_id = 2; desktop = normal; generation = 7 }

-- Its lease controls it.
abbrev pub controlled : SessionStateMachine
controlled = record {
  generation = 7;
  current = some desk;
  controlled_lease = true;
  input_enabled = true;
}

pub controlled-IsValid : IsValid controlled
controlled-IsValid = record {
  current = (refl, omega arith, omega arith);
  together = refl;
  routed = λ e. refl;
  fits = omega arith;
}

abbrev inputs : List Input
inputs = event (session_available desk) ∷ control 7 ∷ event (logged_out 8) ∷ []

inputs-IsValid_example : IsValid (run new inputs)
inputs-IsValid_example = inputs-IsValid inputs (omega arith, (omega arith, (omega arith, tt)))

apply_moves_example : apply controlled (route_lost 8) ≡ (
  moved controlled (route_lost 8),
  ok (freeze_input ∷ release_all_input ∷ peer_disconnected ∷ clear_route ∷ []),
)
apply_moves_example =
    apply_moves controlled controlled-IsValid (route_lost 8) (omega arith) (omega arith, inr refl)

apply-Ignored_example : Ignored controlled (route_lost 9) (apply controlled (route_lost 9))
apply-Ignored_example =
    apply-Ignored controlled controlled-IsValid (route_lost 9) (omega arith) (λ h. ground arith)

observe-Outcome_example : Outcome controlled (observe controlled (route_lost 8 ∷ logged_out 9 ∷ []))
observe-Outcome_example =
    observe-Outcome controlled (route_lost 8 ∷ logged_out 9 ∷ []) controlled-IsValid
      (omega arith, (omega arith, tt))

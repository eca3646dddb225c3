-- ===== src/Route/Invariant.antt =====
-- The routing state machine after any history of events and control requests.
use roammand.Base.{
  ℕ, ◌<◌, ◌≡◌, refl, true, Option, none, some, List, [], ◌∷◌, u64_size, is_some, arith,
}
use roammand.Route.{
  RouteSession, RouteEvent, session_available, route_lost, helper_crashed, broker_restarted,
  host_disconnected, logged_out, SessionStateMachine, new, apply, apply_available,
  apply_unavailable, begin_control,
}

-- The routed session, if there is one, is real and of the machine's generation.
abbrev pub CurrentValid : ℕ → Option RouteSession → Type 0
CurrentValid generation none = Unit {0}
CurrentValid generation (some route) =
    (route.generation ≡ generation) × (0 < route.os_session_id) × (0 < generation)

pub record IsValid (m : SessionStateMachine) : Type 0 where
  pub current : CurrentValid m.generation m.current
  pub together : m.controlled_lease ≡ m.input_enabled
  pub routed : m.input_enabled ≡ true → is_some m.current ≡ true
  pub fits : m.generation < u64_size

pub data Input : Type 0 where
  event : RouteEvent → Input
  control : ℕ → Input

-- The generation that an event names.
abbrev pub generation_of : RouteEvent → ℕ
generation_of (session_available next) = next.generation
generation_of (route_lost generation) = generation
generation_of (helper_crashed generation) = generation
generation_of (broker_restarted generation) = generation
generation_of (host_disconnected generation) = generation
generation_of (logged_out generation) = generation

-- Generations are u64s.
abbrev pub Fits : Input → Type 0
Fits (event e) = generation_of e < u64_size
Fits (control generation) = generation < u64_size

abbrev pub AllFit : List Input → Type 0
AllFit [] = Unit {0}
AllFit (i ∷ is) = Fits i × AllFit is

unfoldable pub step : SessionStateMachine → Input → SessionStateMachine
step m (event e) = (apply m e).0
step m (control generation) = (begin_control m generation).0

unfoldable pub run : SessionStateMachine → List Input → SessionStateMachine
run m [] = m
run m (i ∷ is) = run (step m i) is

module _ (m : SessionStateMachine) (v : IsValid m) where
  available-IsValid :
      (next : RouteSession) → next.generation < u64_size → IsValid (apply_available m next).0
  unfolding apply_available
  available-IsValid next f = ground arith

  unavailable-IsValid :
      (generation : ℕ) → generation < u64_size → IsValid (apply_unavailable m generation).0
  unfolding apply_unavailable
  unavailable-IsValid generation f = ground arith

  control-IsValid : (generation : ℕ) → IsValid (begin_control m generation).0
  unfolding begin_control
  control-IsValid generation = ground arith

  pub apply-IsValid : (e : RouteEvent) → generation_of e < u64_size → IsValid (apply m e).0
  unfolding apply
  apply-IsValid (session_available next) f = available-IsValid next f
  apply-IsValid (route_lost generation) f = unavailable-IsValid generation f
  apply-IsValid (helper_crashed generation) f = unavailable-IsValid generation f
  apply-IsValid (broker_restarted generation) f = unavailable-IsValid generation f
  apply-IsValid (host_disconnected generation) f = unavailable-IsValid generation f
  apply-IsValid (logged_out generation) f = unavailable-IsValid generation f

step-IsValid : (m : SessionStateMachine) (i : Input) → Fits i → IsValid m → IsValid (step m i)
unfolding step
step-IsValid m (event e) f v = apply-IsValid m v e f
step-IsValid m (control generation) f v = control-IsValid m v generation

run-IsValid :
    (m : SessionStateMachine) (is : List Input) → AllFit is → IsValid m → IsValid (run m is)
unfolding run
run-IsValid m [] f v = v
run-IsValid m (i ∷ is) f v = run-IsValid (step m i) is f.1 (step-IsValid m i f.0 v)

-- After any history of u64 events and control requests on a new machine, the routed session has
-- the machine's nonzero generation and a nonzero session id, and input is enabled exactly when a
-- lease controls the session, and only while a session is routed.
pub inputs-IsValid : (is : List Input) → AllFit is → IsValid (run new is)
unfolding new
inputs-IsValid is f =
    run-IsValid new is f
      (record { current = tt; together = refl; routed = λ e. cc; fits = omega arith })

-- ===== src/Route.antt =====
-- crates/privileged-bridge/src/session.rs: which graphical session is routed to the Helper.
pub mod Invariant
pub mod Effects
use mathlib.Core.Logic.{ite}
use roammand.Base.{
  ℕ, ◌+◌, ◌%◌, Bool, true, false, ◌&&◌, ◌||◌, not, Option, none, some, List, [], ◌∷◌, ◌++◌, ltb,
  ◌==◌, is_some, u64_size, Result, ok, err, Call, if◌then◌else◌,
}

pub data Platform : Type 0 where
  windows macos : Platform

pub data DesktopKind : Type 0 where
  normal locked_login secure : DesktopKind

pub record RouteSession : Type 0 where
  pub platform : Platform
  pub os_session_id : ℕ
  pub desktop : DesktopKind
  pub generation : ℕ

pub data RouteEvent : Type 0 where
  session_available : RouteSession → RouteEvent
  route_lost helper_crashed broker_restarted host_disconnected logged_out : ℕ → RouteEvent

pub data SessionAction : Type 0 where
  freeze_input release_all_input peer_disconnected clear_route : SessionAction
  publish_route : RouteSession → SessionAction

pub data SessionError : Type 0 where
  stale_generation generation_gap conflicting_duplicate : SessionError
  unexpected_os_session route_unavailable : SessionError

pub record SessionStateMachine : Type 0 where
  pub generation : ℕ
  pub current : Option RouteSession
  pub controlled_lease : Bool
  pub input_enabled : Bool

-- SessionStateMachine::new
unfoldable pub new : SessionStateMachine
new = record { generation = 0; current = none; controlled_lease = false; input_enabled = false }

-- The derived `PartialEq`s.
platform_eq : Platform → Platform → Bool
platform_eq windows windows = true
platform_eq macos macos = true
platform_eq _ _ = false

desktop_eq : DesktopKind → DesktopKind → Bool
desktop_eq normal normal = true
desktop_eq locked_login locked_login = true
desktop_eq secure secure = true
desktop_eq _ _ = false

unfoldable pub route_eq : RouteSession → RouteSession → Bool
unfolding platform_eq desktop_eq
route_eq a b =
    platform_eq a.platform b.platform
    && a.os_session_id == b.os_session_id
    && desktop_eq a.desktop b.desktop
    && a.generation == b.generation

-- The three effects that stop the remote side, if it was in control.
freeze_if : Bool → List SessionAction
freeze_if true = freeze_input ∷ release_all_input ∷ peer_disconnected ∷ []
freeze_if false = []

clear_if : Bool → List SessionAction
clear_if true = clear_route ∷ []
clear_if false = []

unfoldable pub freeze_actions :
    SessionStateMachine → Bool → SessionStateMachine × List SessionAction
unfolding freeze_if clear_if
freeze_actions m clear = (
  record m { input_enabled = false; controlled_lease = false },
  freeze_if (m.controlled_lease || m.input_enabled) ++ clear_if (clear && is_some m.current),
)

-- `self.current == Some(next)`
is_current : Option RouteSession → RouteSession → Bool
unfolding route_eq
is_current none next = false
is_current (some route) next = route_eq route next

other_session : Option RouteSession → RouteSession → Bool
other_session none next = false
other_session (some route) next = not (next.os_session_id == route.os_session_id)

-- `self.generation + 1` on u64, which wraps in a release build.
unfoldable pub next_generation : ℕ → ℕ
next_generation generation = (generation + 1) % u64_size

unfoldable pub apply_available :
    SessionStateMachine → RouteSession → Call SessionStateMachine SessionError (List SessionAction)
unfolding is_current other_session next_generation freeze_actions
apply_available m next =
    if next.os_session_id == 0
    then (m, err unexpected_os_session)
    else if ltb next.generation m.generation
    then (m, err stale_generation)
    else if next.generation == m.generation
    then if is_current m.current next then (m, ok []) else (m, err conflicting_duplicate)
    else if not (m.generation == 0) && not (next.generation == next_generation m.generation)
    then (m, err generation_gap)
    else if other_session m.current next
    then (m, err unexpected_os_session)
    else (
      record (freeze_actions m false).0 { generation = next.generation; current = some next },
      ok ((freeze_actions m false).1 ++ publish_route next ∷ []),
    )

unfoldable pub apply_unavailable :
    SessionStateMachine → ℕ → Call SessionStateMachine SessionError (List SessionAction)
unfolding next_generation freeze_actions
apply_unavailable m generation =
    if ltb generation m.generation
    then (m, err stale_generation)
    else if generation == m.generation
    then if is_some m.current then (m, err conflicting_duplicate) else (m, ok [])
    else if not (m.generation == 0) && not (generation == next_generation m.generation)
    then (m, err generation_gap)
    else (
      record (freeze_actions m true).0 { generation = generation; current = none },
      ok (freeze_actions m true).1,
    )

unfoldable pub apply :
    SessionStateMachine → RouteEvent → Call SessionStateMachine SessionError (List SessionAction)
unfolding apply_available apply_unavailable
apply m (session_available next) = apply_available m next
apply m (route_lost generation) = apply_unavailable m generation
apply m (helper_crashed generation) = apply_unavailable m generation
apply m (broker_restarted generation) = apply_unavailable m generation
apply m (host_disconnected generation) = apply_unavailable m generation
apply m (logged_out generation) = apply_unavailable m generation

unfoldable pub begin_control :
    SessionStateMachine → ℕ → Call SessionStateMachine SessionError (Unit {0})
begin_control m generation = elim m.current [
  | none ↦ (m, err route_unavailable)
  | some route ↦
      if not (generation == m.generation) || not (generation == route.generation)
      then (m, err route_unavailable)
      else (record m { controlled_lease = true; input_enabled = true }, ok tt)
]

-- ===== src/Proxy.antt =====
-- crates/privileged-bridge/src/proxy.rs: the Host's side of the bridge. Its four parts share one
-- state, here the argument of each of their calls; the mutex around it is never poisoned. A
-- `BridgeWire` is a state with its operations.
pub mod Parts
pub mod Logged
pub mod Numbers
pub mod Silent
use roammand.Base.{
  ℕ, suc, ◌+◌, Bool, true, false, not, ◌&&◌, ◌||◌, Option, none, some, List, [], ◌∷◌, Bytes, Text,
  bytes_eq, length, any, is_empty, ltb, ◌==◌, Result, ok, err, Call, checked_add, saturating_add,
  if◌then◌else◌, text_len,
}
use roammand.Broker.Routing.{ProxyRoute, route_eq}
use roammand.Helper.Frames.{ProxyEvent}
use roammand.Peer.Types.{
  SessionPermission, view_screen, control_input, KeyboardAction, PointerButton, ButtonAction, ℤ,
  SessionConfig, PeerIceCandidate, PeerAnswer,
}
use roammand.Validation.{max_device_name_utf8_bytes}

abbrev pub session_id_bytes : ℕ
session_id_bytes = 16

pub record BridgeRequest : Type 0 where
  pub route : ProxyRoute
  pub sequence : ℕ

pub record BridgeResponse (T : Type 0) : Type 0 where
  pub route : ProxyRoute
  pub sequence : ℕ
  pub value : T

pub data ProxyError : Type 0 where
  transport stale_route stale_response failed_closed invalid_migration : ProxyError
  invalid_configuration invalid_message helper_unavailable rejected : ProxyError

pub record ProxySessionContext : Type 0 where
  pub session_id : Bytes
  pub permissions : List SessionPermission
  pub controller_display_name : Text

-- The derived `==`.
unfoldable pub permission_eq : SessionPermission → SessionPermission → Bool
permission_eq SessionPermission.unspecified SessionPermission.unspecified = true
permission_eq view_screen view_screen = true
permission_eq control_input control_input = true
permission_eq _ _ = false

-- The length of the HashSet of the permissions.
unfoldable pub unique_permissions : List SessionPermission → ℕ
unique_permissions [] = 0
unique_permissions (permission ∷ permissions) =
    let rest = unique_permissions permissions in
    if any (permission_eq permission) permissions then rest else suc rest

unfoldable pub new : Bytes → List SessionPermission → Text → Result ProxyError ProxySessionContext
new session_id permissions controller_display_name =
    if not (length session_id == session_id_bytes)
      || is_empty permissions
      || not (unique_permissions permissions == length permissions)
      || any (permission_eq SessionPermission.unspecified) permissions
      || is_empty controller_display_name
      || ltb max_device_name_utf8_bytes (text_len controller_display_name)
    then err invalid_configuration
    else ok (record {
      session_id = session_id;
      permissions = permissions;
      controller_display_name = controller_display_name;
    })

pub data ValidatedInput : Type 0 where
  keyboard : KeyboardAction → (usb_hid_usage modifier_bits : ℕ) → ValidatedInput
  pointer_button : PointerButton → ButtonAction → (x y : ℤ) → ValidatedInput
  pointer_move : (x y : ℤ) (pressed_button_bits : ℕ) → ValidatedInput
  pointer_scroll : (delta_x delta_y : ℤ) → ValidatedInput
  text : Text → ValidatedInput
  release_all : ValidatedInput

-- A call of a wire for one request.
abbrev pub WireCall : Type 0 → Type 0 → Type 0
WireCall W T = W → BridgeRequest → Call W ProxyError (BridgeResponse T)

pub record BridgeWire (W : Type 0) : Type 0 where
  pub start : SessionConfig → Text → WireCall W PeerAnswer
  pub restart : SessionConfig → Text → WireCall W PeerAnswer
  pub add_candidate : PeerIceCandidate → WireCall W (Unit {0})
  pub input : ValidatedInput → WireCall W (Unit {0})
  pub close : WireCall W (Unit {0})
  pub release : WireCall W (Unit {0})
  pub try_event : W → Call W ProxyError (Option (BridgeResponse ProxyEvent))
  pub fail_wire : W → W

pub record ProxyShared (W : Type 0) : Type 0 where
  pub route : ProxyRoute
  pub next_request_sequence : ℕ
  pub last_event_sequence : ℕ
  pub wire : W
  pub failed : Bool
  pub closed : Bool

unfoldable pub new_proxy_parts : {W : Type 0} → ProxyRoute → W → ProxyShared W
new_proxy_parts route wire = record {
  route = route;
  next_request_sequence = 1;
  last_event_sequence = 0;
  wire = wire;
  failed = false;
  closed = false;
}

module _ {W : Type 0} (wires : BridgeWire W) where
  unfoldable pub fail_closed : ProxyShared W → ProxyShared W
  fail_closed s = if s.failed then s else record s { failed = true; wire = wires.fail_wire s.wire }

  -- The checks of a response.
  unfoldable pub check_response :
      {T : Type 0}
      → ProxyShared W
      → BridgeRequest
      → BridgeResponse T
      → Call (ProxyShared W) ProxyError T
  check_response s request response =
      if not (route_eq response.route request.route)
      then (fail_closed s, err stale_route)
      else if not (response.sequence == request.sequence)
      then (fail_closed s, err stale_response)
      else (s, ok response.value)

  unfoldable pub answered :
      {T : Type 0}
      → ProxyShared W
      → BridgeRequest
      → Call W ProxyError (BridgeResponse T)
      → Call (ProxyShared W) ProxyError T
  answered s request (wire, err error) = (fail_closed (record s { wire = wire }), err error)
  answered s request (wire, ok response) =
      check_response (record s { wire = wire }) request response

  -- With the number of the next request, if there is one.
  unfoldable pub send_next :
      {T : Type 0} → ProxyShared W → WireCall W T → Option ℕ → Call (ProxyShared W) ProxyError T
  send_next s call none = (s, err failed_closed)
  send_next s call (some next) =
      let request : BridgeRequest = record {
        route = s.route;
        sequence = s.next_request_sequence;
      } in
      answered (record s { next_request_sequence = next }) request (call s.wire request)

  unfoldable pub perform :
      {T : Type 0} → ProxyShared W → WireCall W T → Call (ProxyShared W) ProxyError T
  perform s call =
      if s.failed
      then (s, err failed_closed)
      else send_next s call (checked_add s.next_request_sequence 1)

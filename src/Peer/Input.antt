-- ===== src/Peer/Input.antt =====
-- The input side of `HostPeerSession` (session.rs). `decode` stands for the two functions of
-- gen/rust/src/validation.rs that decode and validate an envelope, `none` for their error.
use roammand.Base.{
  ℕ, ◌+◌, Bool, true, false, ◌&&◌, ◌||◌, Option, List, [], ◌∷◌, Bytes, bytes_eq, text_len, is_empty,
  any, ltb, leb, ◌==◌, saturating_add, Result, ok, err, ok_or, Call, and_then, ◌>>=◌, ◌>>◌,
  if◌then◌else◌, ensure,
}
use roammand.Peer.Types.{
  HostWebRtcError, invalid_state, input_permission_denied, invalid_input_envelope, session_mismatch,
  reliable_sequence, invalid_coordinates, invalid_keyboard_usage, invalid_modifier_bits,
  invalid_pointer_buttons, invalid_scroll_delta, pressed_input_state, is_input_failure, ℤ, pos,
  negsuc, KeyboardAction, ButtonAction, PointerButton, left, right, middle, SessionControlAction,
  keyboard_action, button_action, pointer_button, session_control_action, ReliableEvent,
  on_pointer_button, on_keyboard, on_text, on_session_control, on_release_all_input,
  ReliableInputEnvelope, PointerEvent, on_move, on_scroll, PointerFastEnvelope, PeerBackend,
  RemoteInputSink,
}
use roammand.Peer.Session.{connected, HostPeerSession, Reply, release_all, close, close_with}

abbrev pub normalized_pointer_max : ℕ
normalized_pointer_max = 10000

abbrev pub minimum_usb_hid_keyboard_usage : ℕ
minimum_usb_hid_keyboard_usage = 0x04

abbrev pub maximum_usb_hid_keyboard_usage : ℕ
maximum_usb_hid_keyboard_usage = 0xe7

abbrev pub maximum_modifier_bits : ℕ
maximum_modifier_bits = 0xff

abbrev pub maximum_pointer_button_bits : ℕ
maximum_pointer_button_bits = 0x07

abbrev pub maximum_scroll_delta : ℕ
maximum_scroll_delta = 10000

abbrev pub maximum_text_input_bytes : ℕ
maximum_text_input_bytes = 1024

pub data InputDisposition : Type 0 where
  applied : InputDisposition

pub data PointerDisposition : Type 0 where
  applied dropped_stale : PointerDisposition

-- BTreeSet::contains, insert and remove on the members
unfoldable pub contains : ℕ → List ℕ → Bool
contains k ks = any (λ j. j == k) ks

unfoldable pub remove : ℕ → List ℕ → List ℕ
remove k [] = []
remove k (j ∷ ks) = if j == k then remove k ks else j ∷ remove k ks

in_range : ℤ → Bool
in_range (pos n) = leb n normalized_pointer_max
in_range (negsuc n) = false

unfoldable pub validate_coordinates : ℤ → ℤ → Result HostWebRtcError (Unit {0})
unfolding in_range
validate_coordinates x y = if in_range x && in_range y then ok tt else err invalid_coordinates

unfoldable pub validate_keyboard : ℕ → ℕ → Result HostWebRtcError (Unit {0})
validate_keyboard usage modifier_bits =
    if ltb usage minimum_usb_hid_keyboard_usage || ltb maximum_usb_hid_keyboard_usage usage
    then err invalid_keyboard_usage
    else if ltb maximum_modifier_bits modifier_bits
    then err invalid_modifier_bits
    else ok tt

-- i32::unsigned_abs
unfoldable pub unsigned_abs : ℤ → ℕ
unsigned_abs (pos n) = n
unsigned_abs (negsuc n) = n + 1

-- `event.button`, once `PointerButton::try_from` has accepted it
unfoldable pub button_number : PointerButton → ℕ
button_number PointerButton.unspecified = 0
button_number left = 1
button_number right = 2
button_number middle = 3

module _ {P I : Type 0} (peers : PeerBackend P) (inputs : RemoteInputSink I) where
  abbrev Answer : Type 0 → Type 0
  Answer = Reply peers inputs

  unfoldable pub require_input_ready : HostPeerSession P I → Result HostWebRtcError (Unit {0})
  require_input_ready s = elim s.state [
    | connected ↦ if s.input_allowed then ok tt else err input_permission_denied
    | _ ↦ err invalid_state
  ]

  -- A call of the input sink; `false`: the session goes on.
  abbrev inject : HostPeerSession P I → Call I HostWebRtcError (Unit {0}) → Answer Bool
  inject s (input, ok _) = (record s { input = input }, ok false)
  inject s (input, err e) = (record s { input = input }, err e)

  apply_keyboard : HostPeerSession P I → KeyboardAction → ℕ → ℕ → Answer Bool
  apply_keyboard s KeyboardAction.down usage bits =
      if contains usage s.pressed_keys
      then (s, err pressed_input_state)
      else inject (record s { pressed_keys = usage ∷ s.pressed_keys })
          (inputs.keyboard s.input KeyboardAction.down usage bits)
  apply_keyboard s KeyboardAction.up usage bits =
      if contains usage s.pressed_keys
      then inject (record s { pressed_keys = remove usage s.pressed_keys })
          (inputs.keyboard s.input KeyboardAction.up usage bits)
      else (s, ok false)
  apply_keyboard s KeyboardAction.unspecified usage bits = (s, err invalid_input_envelope)

  apply_button : HostPeerSession P I → PointerButton → ButtonAction → ℤ → ℤ → Answer Bool
  apply_button s button ButtonAction.down x y =
      if contains (button_number button) s.pressed_buttons
      then (s, err pressed_input_state)
      else inject (record s { pressed_buttons = button_number button ∷ s.pressed_buttons })
          (inputs.pointer_button s.input button ButtonAction.down x y)
  apply_button s button ButtonAction.up x y =
      if contains (button_number button) s.pressed_buttons
      then inject (record s { pressed_buttons = remove (button_number button) s.pressed_buttons })
          (inputs.pointer_button s.input button ButtonAction.up x y)
      else (s, ok false)
  apply_button s button ButtonAction.click x y =
      inject s (inputs.pointer_button s.input button ButtonAction.click x y)
  apply_button s button ButtonAction.double_click x y =
      inject s (inputs.pointer_button s.input button ButtonAction.double_click x y)
  apply_button s button ButtonAction.unspecified x y = (s, err invalid_input_envelope)

  apply_control : HostPeerSession P I → SessionControlAction → Answer Bool
  apply_control s SessionControlAction.close = (s, ok true)
  apply_control s SessionControlAction.emergency_stop = (s, ok true)
  apply_control s SessionControlAction.unspecified = (s, err invalid_input_envelope)

  unfoldable pub apply_reliable_event : HostPeerSession P I → ReliableEvent → Answer Bool
  unfolding apply_keyboard apply_button apply_control
  apply_reliable_event s (on_keyboard action usage bits) =
      and_then (s, ok_or (keyboard_action action) invalid_input_envelope)
        λ s action.
          and_then (s, validate_keyboard usage bits) λ s _. apply_keyboard s action usage bits
  apply_reliable_event s (on_pointer_button button action x y) =
      and_then (s, validate_coordinates x y)
        λ s _.
          and_then (s, ok_or (pointer_button button) invalid_input_envelope)
            λ s button.
              and_then (s, ok_or (button_action action) invalid_input_envelope)
                λ s action. apply_button s button action x y
  apply_reliable_event s (on_text text) =
      if is_empty text || ltb maximum_text_input_bytes (text_len text)
      then (s, err invalid_input_envelope)
      else inject s (inputs.text s.input text)
  apply_reliable_event s on_release_all_input =
      and_then (release_all peers inputs s) λ s _. (s, ok false)
  apply_reliable_event s (on_session_control action) =
      and_then (s, ok_or (session_control_action action) invalid_input_envelope)
        λ s action. apply_control s action

  -- An injection failure closes the session.
  unfoldable pub fail_input : {A : Type 0} → HostPeerSession P I → HostWebRtcError → Answer A
  fail_input s e = if is_input_failure e then close_with peers inputs s e else (s, err e)

  unfoldable pub finish_reliable : ℕ → Answer Bool → Answer InputDisposition
  unfolding fail_input
  finish_reliable sequence (s, err e) = fail_input s e
  finish_reliable sequence (s, ok false) =
      (record s { last_reliable_sequence = sequence }, ok InputDisposition.applied)
  finish_reliable sequence (s, ok true) =
      and_then (close peers inputs (record s { last_reliable_sequence = sequence }))
        λ s _. (s, ok InputDisposition.applied)

  -- The checks on an envelope, in their order.
  unfoldable pub admit_reliable :
      HostPeerSession P I
      → Option ReliableInputEnvelope
      → Result HostWebRtcError (ℕ × ReliableEvent)
  unfolding require_input_ready
  admit_reliable s decoded = do
    require_input_ready s
    envelope ← ok_or decoded invalid_input_envelope
    ensure (bytes_eq envelope.session_id s.session_id) session_mismatch
    ensure (envelope.sequence == saturating_add s.last_reliable_sequence 1) reliable_sequence
    event ← ok_or envelope.event invalid_input_envelope
    ok (envelope.sequence, event)

  unfoldable pub handle_reliable :
      (Bytes → Option ReliableInputEnvelope) → HostPeerSession P I → Bytes → Answer InputDisposition
  unfolding admit_reliable finish_reliable apply_reliable_event
  handle_reliable decode s encoded =
      and_then (s, admit_reliable s (decode encoded))
        λ s (sequence, event). finish_reliable sequence (apply_reliable_event s event)

  -- A call of the sink that ends the chain.
  abbrev moved : HostPeerSession P I → Call I HostWebRtcError (Unit {0}) → Answer (Unit {0})
  moved s (input, r) = (record s { input = input }, r)

  unfoldable pub apply_pointer_event : HostPeerSession P I → PointerEvent → Answer (Unit {0})
  unfolding validate_coordinates unsigned_abs
  apply_pointer_event s (on_move x y bits) =
      and_then (s, validate_coordinates x y)
        λ s _.
          if ltb maximum_pointer_button_bits bits
          then (s, err invalid_pointer_buttons)
          else moved s (inputs.pointer_move s.input x y bits)
  apply_pointer_event s (on_scroll delta_x delta_y) =
      if ltb maximum_scroll_delta (unsigned_abs delta_x)
        || ltb maximum_scroll_delta (unsigned_abs delta_y)
      then (s, err invalid_scroll_delta)
      else moved s (inputs.pointer_scroll s.input delta_x delta_y)

  unfoldable pub finish_pointer : ℕ → Answer (Unit {0}) → Answer PointerDisposition
  unfolding fail_input
  finish_pointer sequence (s, err e) = fail_input s e
  finish_pointer sequence (s, ok _) =
      (record s { last_pointer_sequence = sequence }, ok PointerDisposition.applied)

  unfoldable pub admit_pointer :
      HostPeerSession P I → Option PointerFastEnvelope → Result HostWebRtcError PointerFastEnvelope
  unfolding require_input_ready
  admit_pointer s decoded = do
    require_input_ready s
    envelope ← ok_or decoded invalid_input_envelope
    ensure (bytes_eq envelope.session_id s.session_id) session_mismatch
    ok envelope

  -- A number that is not newer is dropped, before the event is looked at.
  unfoldable pub apply_newer : HostPeerSession P I → PointerFastEnvelope → Answer PointerDisposition
  unfolding finish_pointer apply_pointer_event
  apply_newer s envelope =
      if leb envelope.sequence s.last_pointer_sequence
      then (s, ok dropped_stale)
      else and_then (s, ok_or envelope.event invalid_input_envelope)
          λ s event. finish_pointer envelope.sequence (apply_pointer_event s event)

  unfoldable pub handle_pointer_fast :
      (Bytes → Option PointerFastEnvelope) → HostPeerSession P I → Bytes → Answer PointerDisposition
  unfolding admit_pointer apply_newer
  handle_pointer_fast decode s encoded =
      and_then (s, admit_pointer s (decode encoded)) λ s envelope. apply_newer s envelope

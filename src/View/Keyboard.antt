-- ===== src/View/Keyboard.antt =====
-- rdp-view-item.h: `keyboardUnicodeEventSend`, and the press and release handlers of the mouse and of
-- the keyboard.
pub mod Pairs
use Prim.Native.Nat.{bit_or}
use qfreerdp.Base.{
  ℕ, Bool, true, false, not, ◌&&◌, List, [], ◌∷◌, Option, none, some, ◌==◌, if◌then◌else◌,
}
use qfreerdp.Entry.Types.{Text}
use qfreerdp.Keys.{QtKey, Scancode, to_freerdp_key_code, unknown}
use qfreerdp.View.Mouse.{Sizes, Coordinate, Sent, mouse_event_scale_send}

-- QKeyEvent: the key, the keypad modifier, the text by its UTF-16 units, and isAutoRepeat.
pub record KeyEvent : Type 0 where
  pub key : QtKey
  pub keypad : Bool
  pub text : Text
  pub auto_repeat : Bool

-- What goes to FreeRDP: a unit of text with the release flag, or a scancode that is pressed, and
-- repeated, or not.
pub data KeySent : Type 0 where
  no_key : KeySent
  unicode : Bool → ℕ → KeySent
  scancode : Bool → Bool → Scancode → KeySent

-- Only the first unit of the text is sent.
abbrev pub send_text : Bool → Text → KeySent
send_text down [] = no_key
send_text down (u ∷ us) = unicode (not down) u

abbrev pub is_unknown : Scancode → Bool
is_unknown unknown = true
is_unknown _ = false

unfoldable pub send_code : Bool → KeyEvent → Scancode → KeySent
send_code down e code =
    if is_unknown code then send_text down e.text else scancode down (down && e.auto_repeat) code

-- `connected` says whether there is an rdpContext.
unfoldable pub keyboard_unicode_event_send : Bool → KeyEvent → Bool → KeySent
unfolding send_code
keyboard_unicode_event_send connected e down =
    if connected then send_code down e (to_freerdp_key_code e.keypad e.key) else no_key

unfoldable pub key_press_event : Bool → KeyEvent → KeySent
key_press_event connected e = keyboard_unicode_event_send connected e true

unfoldable pub key_release_event : Bool → KeyEvent → KeySent
key_release_event connected e = keyboard_unicode_event_send connected e false

-- FreeRDP's flags of mouse events.
abbrev pub ptr_flags_down : ℕ
ptr_flags_down = 0x8000

abbrev pub ptr_flags_button1 : ℕ
ptr_flags_button1 = 0x1000

abbrev pub ptr_flags_button2 : ℕ
ptr_flags_button2 = 0x2000

abbrev pub ptr_flags_move : ℕ
ptr_flags_move = 0x0800

-- Every button but the left one counts as the right one.
unfoldable pub press_flags : Bool → ℕ
press_flags left = bit_or (if left then ptr_flags_button1 else ptr_flags_button2) ptr_flags_down

unfoldable pub release_flags : Bool → ℕ
release_flags left = if left then ptr_flags_button1 else ptr_flags_button2

unfoldable pub mouse_press_event : Option Sizes → Bool → Coordinate → Coordinate → Sent
mouse_press_event s left x y = mouse_event_scale_send s x y (press_flags left)

unfoldable pub mouse_release_event : Option Sizes → Bool → Coordinate → Coordinate → Sent
mouse_release_event s left x y = mouse_event_scale_send s x y (release_flags left)

unfoldable pub mouse_move_event : Option Sizes → Coordinate → Coordinate → Sent
mouse_move_event s x y = mouse_event_scale_send s x y ptr_flags_move

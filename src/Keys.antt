-- ===== src/Keys.antt =====
-- qf_util.h: `to_freerdp_key_code`. Qt's key numbers and FreeRDP's scancodes are constants of those
-- libraries: they are the constructors here, by the names that the source uses.
pub mod Collisions
mod Tests
use qfreerdp.Base.{ℕ, Bool, true, false, Option, none, some}

-- `Qt::Key_…`; `other_key` is a key that the source does not name.
pub data QtKey : Type 0 where
  key_escape key_tab key_backtab key_backspace key_return key_enter key_space key_0 : QtKey
  key_1 key_2 key_3 key_4 key_5 key_6 key_7 key_8 key_9 key_a key_b key_c key_d key_e : QtKey
  key_f key_g key_h key_i key_j key_k key_l key_m key_n key_o key_p key_q key_r key_s : QtKey
  key_t key_u key_v key_w key_x key_y key_z key_minus key_equal key_bracket_left : QtKey
  key_bracket_right key_backslash key_semicolon key_apostrophe key_quote_left : QtKey
  key_comma key_period key_slash key_shift key_control key_alt key_meta key_caps_lock : QtKey
  key_num_lock key_scroll_lock key_left key_right key_up key_down key_insert : QtKey
  key_delete key_home key_end key_page_up key_page_down key_f1 key_f2 key_f3 key_f4 : QtKey
  key_f5 key_f6 key_f7 key_f8 key_f9 key_f10 key_f11 key_f12 key_plus key_asterisk : QtKey
  other_key : ℕ → QtKey

-- `RDP_SCANCODE_…`.
pub data Scancode : Type 0 where
  numpad0 numpad1 numpad2 numpad3 numpad4 numpad5 numpad6 numpad7 numpad8 numpad9 add : Scancode
  subtract multiply divide decimal return_kp escape tab backspace return space code_0 : Scancode
  code_1 code_2 code_3 code_4 code_5 code_6 code_7 code_8 code_9 code_a code_b code_c : Scancode
  code_d code_e code_f code_g code_h code_i code_j code_k code_l code_m code_n code_o : Scancode
  code_p code_q code_r code_s code_t code_u code_v code_w code_x code_y code_z : Scancode
  oem_minus oem_plus oem_4 oem_6 oem_5 oem_1 oem_7 oem_3 oem_comma oem_period oem_2 : Scancode
  lshift lcontrol lmenu lwin capslock numlock scrolllock left right up down insert : Scancode
  delete home end prior next f1 f2 f3 f4 f5 f6 f7 f8 f9 f10 f11 f12 unknown : Scancode

-- The first `switch`, on a key of the keypad: `none` is its `default`.
unfoldable pub keypad_code : QtKey → Option Scancode
keypad_code key_0 = some numpad0
keypad_code key_1 = some numpad1
keypad_code key_2 = some numpad2
keypad_code key_3 = some numpad3
keypad_code key_4 = some numpad4
keypad_code key_5 = some numpad5
keypad_code key_6 = some numpad6
keypad_code key_7 = some numpad7
keypad_code key_8 = some numpad8
keypad_code key_9 = some numpad9
keypad_code key_plus = some add
keypad_code key_minus = some subtract
keypad_code key_asterisk = some multiply
keypad_code key_slash = some divide
keypad_code key_period = some decimal
keypad_code key_enter = some return_kp
keypad_code _ = none

-- The second `switch`.
unfoldable pub key_code : QtKey → Scancode
key_code key_escape = escape
key_code key_tab = tab
key_code key_backtab = tab
key_code key_backspace = backspace
key_code key_return = return
key_code key_enter = return_kp
key_code key_space = space
key_code key_0 = code_0
key_code key_1 = code_1
key_code key_2 = code_2
key_code key_3 = code_3
key_code key_4 = code_4
key_code key_5 = code_5
key_code key_6 = code_6
key_code key_7 = code_7
key_code key_8 = code_8
key_code key_9 = code_9
key_code key_a = code_a
key_code key_b = code_b
key_code key_c = code_c
key_code key_d = code_d
key_code key_e = code_e
key_code key_f = code_f
key_code key_g = code_g
key_code key_h = code_h
key_code key_i = code_i
key_code key_j = code_j
key_code key_k = code_k
key_code key_l = code_l
key_code key_m = code_m
key_code key_n = code_n
key_code key_o = code_o
key_code key_p = code_p
key_code key_q = code_q
key_code key_r = code_r
key_code key_s = code_s
key_code key_t = code_t
key_code key_u = code_u
key_code key_v = code_v
key_code key_w = code_w
key_code key_x = code_x
key_code key_y = code_y
key_code key_z = code_z
key_code key_minus = oem_minus
key_code key_equal = oem_plus
key_code key_bracket_left = oem_4
key_code key_bracket_right = oem_6
key_code key_backslash = oem_5
key_code key_semicolon = oem_1
key_code key_apostrophe = oem_7
key_code key_quote_left = oem_3
key_code key_comma = oem_comma
key_code key_period = oem_period
key_code key_slash = oem_2
key_code key_shift = lshift
key_code key_control = lcontrol
key_code key_alt = lmenu
key_code key_meta = lwin
key_code key_caps_lock = capslock
key_code key_num_lock = numlock
key_code key_scroll_lock = scrolllock
key_code key_left = left
key_code key_right = right
key_code key_up = up
key_code key_down = down
key_code key_insert = insert
key_code key_delete = delete
key_code key_home = home
key_code key_end = end
key_code key_page_up = prior
key_code key_page_down = next
key_code key_f1 = f1
key_code key_f2 = f2
key_code key_f3 = f3
key_code key_f4 = f4
key_code key_f5 = f5
key_code key_f6 = f6
key_code key_f7 = f7
key_code key_f8 = f8
key_code key_f9 = f9
key_code key_f10 = f10
key_code key_f11 = f11
key_code key_f12 = f12
key_code (other_key n) = unknown
key_code _ = unknown

abbrev or_code : Option Scancode → Scancode → Scancode
or_code (some s) t = s
or_code none t = t

-- The keypad modifier, and the key.
unfoldable pub to_freerdp_key_code : Bool → QtKey → Scancode
unfolding keypad_code key_code
to_freerdp_key_code true k = or_code (keypad_code k) (key_code k)
to_freerdp_key_code false k = key_code k

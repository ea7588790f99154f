-- ===== src/Keys/Collisions.antt =====
-- Which keys share a scancode.
use qfreerdp.Base.{◌≡◌, refl, Bool, true, false, Option, none, some}
use qfreerdp.Keys.{
  QtKey, Scancode, key_escape, key_tab, key_backtab, key_backspace, key_return, key_enter,
  key_space, key_0, key_1, key_2, key_3, key_4, key_5, key_6, key_7, key_8, key_9, key_a, key_b,
  key_c, key_d, key_e, key_f, key_g, key_h, key_i, key_j, key_k, key_l, key_m, key_n, key_o, key_p,
  key_q, key_r, key_s, key_t, key_u, key_v, key_w, key_x, key_y, key_z, key_minus, key_equal,
  key_bracket_left, key_bracket_right, key_backslash, key_semicolon, key_apostrophe, key_quote_left,
  key_comma, key_period, key_slash, key_shift, key_control, key_alt, key_meta, key_caps_lock,
  key_num_lock, key_scroll_lock, key_left, key_right, key_up, key_down, key_insert, key_delete,
  key_home, key_end, key_page_up, key_page_down, key_f1, key_f2, key_f3, key_f4, key_f5, key_f6,
  key_f7, key_f8, key_f9, key_f10, key_f11, key_f12, key_plus, key_asterisk, other_key, numpad0,
  numpad1, numpad2, numpad3, numpad4, numpad5, numpad6, numpad7, numpad8, numpad9, add, subtract,
  multiply, divide, decimal, return_kp, escape, tab, backspace, return, space, code_0, code_1,
  code_2, code_3, code_4, code_5, code_6, code_7, code_8, code_9, code_a, code_b, code_c, code_d,
  code_e, code_f, code_g, code_h, code_i, code_j, code_k, code_l, code_m, code_n, code_o, code_p,
  code_q, code_r, code_s, code_t, code_u, code_v, code_w, code_x, code_y, code_z, oem_minus,
  oem_plus, oem_4, oem_6, oem_5, oem_1, oem_7, oem_3, oem_comma, oem_period, oem_2, lshift,
  lcontrol, lmenu, lwin, capslock, numlock, scrolllock, left, right, up, down, insert, delete, home,
  end, prior, next, f1, f2, f3, f4, f5, f6, f7, f8, f9, f10, f11, f12, unknown, to_freerdp_key_code,
}

-- The key event that a scancode is read back as: the keypad modifier and the key. `unknown` stands for
-- no key.
pub key_of : Scancode → Option (Bool × QtKey)
key_of numpad0 = some (true, key_0)
key_of numpad1 = some (true, key_1)
key_of numpad2 = some (true, key_2)
key_of numpad3 = some (true, key_3)
key_of numpad4 = some (true, key_4)
key_of numpad5 = some (true, key_5)
key_of numpad6 = some (true, key_6)
key_of numpad7 = some (true, key_7)
key_of numpad8 = some (true, key_8)
key_of numpad9 = some (true, key_9)
key_of add = some (true, key_plus)
key_of subtract = some (true, key_minus)
key_of multiply = some (true, key_asterisk)
key_of divide = some (true, key_slash)
key_of decimal = some (true, key_period)
key_of return_kp = some (false, key_enter)
key_of escape = some (false, key_escape)
key_of tab = some (false, key_tab)
key_of backspace = some (false, key_backspace)
key_of return = some (false, key_return)
key_of space = some (false, key_space)
key_of code_0 = some (false, key_0)
key_of code_1 = some (false, key_1)
key_of code_2 = some (false, key_2)
key_of code_3 = some (false, key_3)
key_of code_4 = some (false, key_4)
key_of code_5 = some (false, key_5)
key_of code_6 = some (false, key_6)
key_of code_7 = some (false, key_7)
key_of code_8 = some (false, key_8)
key_of code_9 = some (false, key_9)
key_of code_a = some (false, key_a)
key_of code_b = some (false, key_b)
key_of code_c = some (false, key_c)
key_of code_d = some (false, key_d)
key_of code_e = some (false, key_e)
key_of code_f = some (false, key_f)
key_of code_g = some (false, key_g)
key_of code_h = some (false, key_h)
key_of code_i = some (false, key_i)
key_of code_j = some (false, key_j)
key_of code_k = some (false, key_k)
key_of code_l = some (false, key_l)
key_of code_m = some (false, key_m)
key_of code_n = some (false, key_n)
key_of code_o = some (false, key_o)
key_of code_p = some (false, key_p)
key_of code_q = some (false, key_q)
key_of code_r = some (false, key_r)
key_of code_s = some (false, key_s)
key_of code_t = some (false, key_t)
key_of code_u = some (false, key_u)
key_of code_v = some (false, key_v)
key_of code_w = some (false, key_w)
key_of code_x = some (false, key_x)
key_of code_y = some (false, key_y)
key_of code_z = some (false, key_z)
key_of oem_minus = some (false, key_minus)
key_of oem_plus = some (false, key_equal)
key_of oem_4 = some (false, key_bracket_left)
key_of oem_6 = some (false, key_bracket_right)
key_of oem_5 = some (false, key_backslash)
key_of oem_1 = some (false, key_semicolon)
key_of oem_7 = some (false, key_apostrophe)
key_of oem_3 = some (false, key_quote_left)
key_of oem_comma = some (false, key_comma)
key_of oem_period = some (false, key_period)
key_of oem_2 = some (false, key_slash)
key_of lshift = some (false, key_shift)
key_of lcontrol = some (false, key_control)
key_of lmenu = some (false, key_alt)
key_of lwin = some (false, key_meta)
key_of capslock = some (false, key_caps_lock)
key_of numlock = some (false, key_num_lock)
key_of scrolllock = some (false, key_scroll_lock)
key_of left = some (false, key_left)
key_of right = some (false, key_right)
key_of up = some (false, key_up)
key_of down = some (false, key_down)
key_of insert = some (false, key_insert)
key_of delete = some (false, key_delete)
key_of home = some (false, key_home)
key_of end = some (false, key_end)
key_of prior = some (false, key_page_up)
key_of next = some (false, key_page_down)
key_of f1 = some (false, key_f1)
key_of f2 = some (false, key_f2)
key_of f3 = some (false, key_f3)
key_of f4 = some (false, key_f4)
key_of f5 = some (false, key_f5)
key_of f6 = some (false, key_f6)
key_of f7 = some (false, key_f7)
key_of f8 = some (false, key_f8)
key_of f9 = some (false, key_f9)
key_of f10 = some (false, key_f10)
key_of f11 = some (false, key_f11)
key_of f12 = some (false, key_f12)
key_of unknown = none

-- The key that an event counts as. Backtab counts as Tab; the keypad modifier is forgotten on the keys
-- that the keypad does not have, and on Enter, which is the keypad's either way; a key that is not
-- named counts as none.
pub canonical : Bool → QtKey → Option (Bool × QtKey)
canonical false key_backtab = some (false, key_tab)
canonical false key_plus = none
canonical false key_asterisk = none
canonical true key_enter = some (false, key_enter)
canonical true key_0 = some (true, key_0)
canonical true key_1 = some (true, key_1)
canonical true key_2 = some (true, key_2)
canonical true key_3 = some (true, key_3)
canonical true key_4 = some (true, key_4)
canonical true key_5 = some (true, key_5)
canonical true key_6 = some (true, key_6)
canonical true key_7 = some (true, key_7)
canonical true key_8 = some (true, key_8)
canonical true key_9 = some (true, key_9)
canonical true key_minus = some (true, key_minus)
canonical true key_period = some (true, key_period)
canonical true key_slash = some (true, key_slash)
canonical true key_plus = some (true, key_plus)
canonical true key_asterisk = some (true, key_asterisk)
canonical _ key_backtab = some (false, key_tab)
canonical _ (other_key n) = none
canonical _ k = some (false, k)

-- No two key events collide but those that are meant to: from the scancode the event can be read back
-- up to Backtab for Tab, Enter for the keypad's Enter, and the keypad modifier on keys that the keypad
-- does not have. Exactly the events of keys that the source does not name, and of `*` and `+` off the
-- keypad, give the unknown scancode.
pub key_of-to_freerdp_key_code :
    (keypad : Bool) (k : QtKey) → key_of (to_freerdp_key_code keypad k) ≡ canonical keypad k
unfolding to_freerdp_key_code key_of canonical
key_of-to_freerdp_key_code true key_escape = refl
key_of-to_freerdp_key_code true _ = refl
key_of-to_freerdp_key_code false key_escape = refl
key_of-to_freerdp_key_code false _ = refl
